-- ===== src/Kpairs.antt =====
-- str-kpairs.c: pairs of strings packed in one buffer, each string with its NUL behind it.
pub mod Packed
pub mod Pairs
pub mod Reads
pub mod Updates
pub mod Sets
pub mod Deletes
mod Tests
use chaconne.Prelude.{
  ℕ, zero, suc, ◌+◌, ◌-◌, Bool, true, false, List, [], ◌∷◌, ◌++◌, Option, none, some, ltb, ◌==◌,
  if◌then◌else◌, length, get_or, set, take, drop, same_key,
}

-- `struct str_kpairs`: the bytes of the buffer, `end - buf` of them (8192 in the source, any number
-- here), and the offset of `last`.
pub record Kpairs : Type 0 where
  pub buf : List ℕ
  pub last : ℕ

-- The string that stands at the front of some bytes.
pub string_at : List ℕ → List ℕ
string_at [] = []
string_at (c ∷ cs) = if c == 0 then [] else c ∷ string_at cs

-- A write of bytes at an offset. One that leaves the buffer makes it longer.
pub blit : List ℕ → ℕ → List ℕ → List ℕ
blit buf at bytes = take at buf ++ bytes ++ drop (at + length bytes) buf

pub memmove : List ℕ → ℕ → ℕ → ℕ → List ℕ
unfolding blit
memmove buf dst src n = blit buf dst (take n (drop src buf))

pub strcpy : List ℕ → ℕ → List ℕ → List ℕ
unfolding blit
strcpy buf dst s = blit buf dst (s ++ 0 ∷ [])

-- The buffer as it comes, with its first byte reset.
pub str_kpairs_init : List ℕ → Kpairs
str_kpairs_init bytes = record { buf = set bytes 0 0; last = 0 }

-- The loop of `str_kpairs_get` from `ptr` on, with rounds for fuel: the offset of the value.
pub find : ℕ → Kpairs → List ℕ → ℕ → Option ℕ
unfolding string_at same_key
find zero kps key ptr = none
find (suc n) kps key ptr =
    let here = string_at (drop ptr kps.buf) in
    let val = ptr + length here + 1 in
    let next = val + length (string_at (drop val kps.buf)) + 1 in
    let rest = find n kps key next in
    if ltb ptr kps.last
    then (if get_or kps.buf ptr 0 == 0 then none else if same_key key here then some val else rest)
    else none

-- Each round goes on by two bytes or more.
pub str_kpairs_get : Kpairs → List ℕ → Option ℕ
unfolding find
str_kpairs_get kps key = find (kps.last + 1) kps key 0

-- The value of a key is set at `val`, where it has room for `val_len` bytes.
pub replace : Kpairs → ℕ → List ℕ → Kpairs × Bool
unfolding string_at memmove strcpy
replace kps val value =
    let len = length value + 1 in
    let val_len = length (string_at (drop val kps.buf)) + 1 in
    let next = val + val_len in
    if len == val_len
    then (record kps { buf = strcpy kps.buf val value }, true)
    else if ltb val_len len
    then (let delta = len - val_len in
        if ltb (length kps.buf) (kps.last + delta) then (kps, false) else (
          record {
            buf = strcpy (memmove kps.buf (next + delta) next (kps.last - next)) val value;
            last = kps.last + delta;
          },
          true,
        ))
    else (let delta = val_len - len in
        (
          record {
            buf = strcpy (memmove kps.buf (next - delta) next (kps.last - next)) val value;
            last = kps.last - delta;
          },
          true,
        ))

-- A new pair is put at `last`.
pub add : Kpairs → List ℕ → List ℕ → Kpairs × Bool
unfolding strcpy
add kps key value =
    let key_len = length key + 1 in
    let total_len = key_len + (length value + 1) in
    if ltb (length kps.buf - kps.last) total_len then (kps, false) else (
      record {
        buf = strcpy (strcpy kps.buf kps.last key) (kps.last + key_len) value;
        last = kps.last + total_len;
      },
      true,
    )

-- `true` is the result 0, and `false` is -1.
pub str_kpairs_set : Kpairs → List ℕ → List ℕ → Kpairs × Bool
unfolding str_kpairs_get replace add
str_kpairs_set kps key value = elim (str_kpairs_get kps key) [
  | some val ↦ replace kps val value
  | none ↦ add kps key value
]

-- The pair whose value stands at `val` is cut out.
pub cut : Kpairs → List ℕ → ℕ → Kpairs
unfolding string_at memmove
cut kps key val =
    let key_len = length key + 1 in
    let val_len = length (string_at (drop val kps.buf)) + 1 in
    let moved = memmove kps.buf (val - key_len) (val + val_len) (kps.last - val - val_len) in
    let last = kps.last - (key_len + val_len) in
    record { buf = if last == 0 then set moved 0 0 else moved; last = last }

pub str_kpairs_delete : Kpairs → List ℕ → Kpairs
unfolding str_kpairs_get cut
str_kpairs_delete kps key = elim (str_kpairs_get kps key) [
  | none ↦ kps
  | some val ↦ cut kps key val
]
