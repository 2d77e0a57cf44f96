-- ===== src/Examples/Codec.antt =====
-- A concrete writer and reader of indexes, in place of encoding/json: a text is its characters, each after an
-- "x", and then a "."; a number is a text of that length; an index is its length and its entries.
use Prim.Native.Char.{code}
use Prim.Native.String.{String}
use elo_service.Prelude.{
  ◌≡◌, ap, refl, ℕ, zero, suc, Bool, true, List, ◌∷◌, nat_eq, ◌==◌, if◌then◌else◌, length,
}
use elo_service.Artifacts.{Index}

write : String → String → String
write String.[] rest = String.◌∷◌ "." rest
write (String.◌∷◌ c s) rest = String.◌∷◌ "x" (String.◌∷◌ c (write s rest))

read : String → String × String
read String.[] = ("", "")
read (String.◌∷◌ x String.[]) = ("", "")
read (String.◌∷◌ x (String.◌∷◌ c t)) =
    let r = read t in if code x == b'.' then ("", String.◌∷◌ c t) else (String.◌∷◌ c r.0, r.1)

read-write : (s rest : String) → read (write s rest) ≡ (s, rest)
unfolding read write
read-write String.[] String.[] = refl
read-write String.[] (String.◌∷◌ c rest) = refl
read-write (String.◌∷◌ c s) rest =
    ap (λ (r : String × String). (String.◌∷◌ c r.0, r.1)) (read-write s rest)

to_text : ℕ → String
to_text zero = ""
to_text (suc n) = String.◌∷◌ "i" (to_text n)

of_text : String → ℕ
of_text String.[] = zero
of_text (String.◌∷◌ c s) = suc (of_text s)

of_text-to_text : (n : ℕ) → of_text (to_text n) ≡ n
unfolding of_text to_text
of_text-to_text zero = refl
of_text-to_text (suc n) = ap suc (of_text-to_text n)

write_entries : Index → String
unfolding write to_text
write_entries List.[] = ""
write_entries ((name, m) ∷ i) =
    write name
      (write m.content_type (write (to_text m.size_bytes) (write m.uploaded_at (write_entries i))))

read_entries : ℕ → String → Index
unfolding read of_text
read_entries zero s = List.[]
read_entries (suc n) s =
    let a = read s in
    let b = read a.1 in
    let c = read b.1 in
    let d = read c.1 in
    (a.0, record { content_type = b.0; size_bytes = of_text c.0; uploaded_at = d.0 })
    ∷ read_entries n d.1

read_entries-write_entries : (i : Index) → read_entries (length i) (write_entries i) ≡ i
unfolding read_entries write_entries
read_entries-write_entries List.[] = refl
read_entries-write_entries ((name, m) ∷ i) =
    let tail = write_entries i in
    let t4 = write m.uploaded_at tail in
    let t3 = write (to_text m.size_bytes) t4 in
    let t2 = write m.content_type t3 in
    rw
      (
        read-write name t2,
        read-write m.content_type t3,
        read-write (to_text m.size_bytes) t4,
        read-write m.uploaded_at tail,
        of_text-to_text m.size_bytes,
      )
      (ap (λ l. (name, m) ∷ l) (read_entries-write_entries i))

unfoldable pub marshal : Index → String
unfolding write to_text write_entries
marshal i = write (to_text (length i)) (write_entries i)

unfoldable pub unmarshal : String → Bool × Index
unfolding read of_text read_entries
unmarshal s = let r = read s in (true, read_entries (of_text r.0) r.1)

pub unmarshal-marshal : (i : Index) → unmarshal (marshal i) ≡ (true, i)
unfolding marshal unmarshal
unmarshal-marshal i =
    rw (read-write (to_text (length i)) (write_entries i), of_text-to_text (length i))
      (ap (λ l. (true, l)) (read_entries-write_entries i))
