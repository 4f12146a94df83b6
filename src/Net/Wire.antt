-- ===== src/Net/Wire.antt =====
-- flatbuffer/net_generated.h: how a message is laid out. The library flatbuffers is a parameter: a
-- table is built by calls of AddElement and AddOffset between StartTable and EndTable, and read by
-- GetField and GetPointer. Slots are the constants VT_... of the structs.
mod Tests
pub mod Manager
pub mod Entities
pub mod Logs
pub mod Root
pub mod Letters
use grit.Net.{to_bool}
use grit.Common.{
  ◌==◌, if◌then◌else◌, Text, ℕ, ◌%◌, ◌^◌, ◌≡◌, refl, Bool, true, false, ◌&&◌, Option, none, some,
  List, [], ◌∷◌,
}

-- What an offset leads to.
pub data Pointer (T : Type 0) : Type 0 where
  to_text : Text → Pointer T
  to_vector : List T → Pointer T
  to_table : T → Pointer T

-- The calls that fill a table: a number of so many bits, with the default that is not written, or an
-- offset, which may be null.
pub data Field (T : Type 0) : Type 0 where
  element : ℕ → ℕ → ℕ → ℕ → Field T
  offset : ℕ → Option (Pointer T) → Field T

abbrev pub slot_of : {T : Type 0} → Field T → ℕ
slot_of (element bits slot value default) = slot
slot_of (offset slot p) = slot

-- No call is about the slot.
abbrev pub free : {T : Type 0} → ℕ → List (Field T) → Bool
free slot [] = true
free slot (f ∷ fs) = let rest = free slot fs in if slot_of f == slot then false else rest

-- The number of a slot that has been filled once, as one of so many bits. A number that equals the
-- default it is written with is left out, so it is read back only with the same default.
abbrev pub number_at : {T : Type 0} → ℕ → ℕ → ℕ → List (Field T) → Option ℕ
number_at bits slot default [] = none
number_at bits slot default (element b s value d ∷ fs) =
    let rest = number_at bits slot default fs in
    if s == slot
    then (if b == bits && (d == default && free slot fs) then some (value % 2 ^ bits) else none)
    else rest
number_at bits slot default (offset s p ∷ fs) =
    let rest = number_at bits slot default fs in if s == slot then none else rest

-- The offset of a slot that has been filled once.
abbrev pub pointer_at : {T : Type 0} → ℕ → List (Field T) → Option (Option (Pointer T))
pointer_at slot [] = none
pointer_at slot (element b s value default ∷ fs) =
    let rest = pointer_at slot fs in if s == slot then none else rest
pointer_at slot (offset s p ∷ fs) =
    let rest = pointer_at slot fs in
    if s == slot then (if free slot fs then some p else none) else rest

-- The library, with what it promises: a field that was added once is read back.
pub record Flatbuffers : Type 1 where
  pub FlatTable : Type 0
  pub end_table : List (Field FlatTable) → FlatTable
  pub get_field : ℕ → FlatTable → ℕ → ℕ → ℕ
  pub get_pointer : FlatTable → ℕ → Option (Pointer FlatTable)
  pub get_field_added :
      (fs : List (Field FlatTable)) (bits slot value default : ℕ)
      → number_at bits slot default fs ≡ some value
      → get_field bits (end_table fs) slot default ≡ value
  pub get_pointer_added :
      (fs : List (Field FlatTable)) (slot : ℕ) (p : Option (Pointer FlatTable))
      → pointer_at slot fs ≡ some p
      → get_pointer (end_table fs) slot ≡ p

-- A pointer as its accessor takes it.
module _ {T : Type 0} where
  abbrev pub text_of : Option (Pointer T) → Option Text
  text_of (some (to_text s)) = some s
  text_of _ = none

  abbrev pub vector_of : Option (Pointer T) → Option (List T)
  vector_of (some (to_vector ts)) = some ts
  vector_of _ = none

  abbrev pub table_of : Option (Pointer T) → Option T
  table_of (some (to_table t)) = some t
  table_of _ = none

  abbrev pub string_offset : Option Text → Option (Pointer T)
  string_offset none = none
  string_offset (some s) = some (to_text s)

  abbrev pub vector_offset : Option (List T) → Option (Pointer T)
  vector_offset none = none
  vector_offset (some ts) = some (to_vector ts)

pub text_of-string_offset : (T : Type 0) (s : Option Text) → text_of {T = T} (string_offset s) ≡ s
text_of-string_offset T none = refl
text_of-string_offset T (some s) = refl

pub vector_of-vector_offset :
    (T : Type 0) (ts : Option (List T)) → vector_of {T = T} (vector_offset ts) ≡ ts
vector_of-vector_offset T none = refl
vector_of-vector_offset T (some ts) = refl

-- static_cast<uint8_t>(b), and the test `!= 0` of the accessor.
abbrev pub byte_of : Bool → ℕ
byte_of true = 1
byte_of false = 0

pub to_bool-byte_of : (b : Bool) → to_bool (byte_of b % 2 ^ 8) ≡ b
to_bool-byte_of true = refl
to_bool-byte_of false = refl
