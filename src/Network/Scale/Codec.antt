-- ===== src/Network/Scale/Codec.antt =====
-- Encoding and decoding in one, as `serialize` of core/src/network/scale/streams.h is.
use polkadot_light_client.Common.{
  length, All, Bytes, IsByte, ℕ, ◌^◌, ◌<◌, ◌≡◌, refl, Option, none, some, List, ◌++◌, append_assoc,
}

-- A stream that a value is written to, and one that it is read from, with what is left of it.
pub record Codec (A : Type 0) : Type 0 where
  pub encode : A → Bytes
  pub decode : Bytes → Option (A × Bytes)

-- What the library decodes and encodes by itself. A variant is the number of its alternative, in one
-- byte, before the value.
pub record Scale : Type 1 where
  pub uint8 : Codec ℕ
  pub uint32 : Codec ℕ
  pub uint64 : Codec ℕ
  pub array : ℕ → Codec Bytes
  pub collection : {A : Type 0} → Codec A → Codec (List A)
  pub index : Codec ℕ

-- What was encoded is read back, and the stream is left after it.
pub record IsLossless {A : Type 0} (codec : Codec A) (P : A → Type 0) : Type 0 where
  pub reads_back :
      (a : A) (rest : Bytes) → P a → codec.decode (codec.encode a ++ rest) ≡ some (a, rest)

abbrev pub IsArray : ℕ → Bytes → Type 0
IsArray n bytes = (length bytes ≡ n) × All IsByte bytes

pub record ScaleLaws (scale : Scale) : Type 1 where
  pub uint8 : IsLossless scale.uint8 (λ n. n < 2 ^ 8)
  pub uint32 : IsLossless scale.uint32 (λ n. n < 2 ^ 32)
  pub uint64 : IsLossless scale.uint64 (λ n. n < 2 ^ 64)
  pub array : (n : ℕ) → IsLossless (scale.array n) (IsArray n)
  pub collection :
      {A : Type 0} (codec : Codec A) (P : A → Type 0)
      → IsLossless codec P
      → IsLossless (scale.collection codec) (All P)
  pub index : IsLossless scale.index (λ n. n < 2 ^ 8)

abbrev pub with_first : {A B : Type 0} → A → Option (B × Bytes) → Option ((A × B) × Bytes)
with_first a none = none
with_first a (some (b, left)) = some ((a, b), left)

abbrev pub then_read : {A B : Type 0} → Codec B → Option (A × Bytes) → Option ((A × B) × Bytes)
then_read d none = none
then_read d (some (a, rest)) = with_first a (d.decode rest)

-- Two values one after the other: `ar(first); ar(second);`.
unfoldable pub pair : {A B : Type 0} → Codec A → Codec B → Codec (A × B)
pair c d = record {
  encode = λ v. c.encode v.0 ++ d.encode v.1;
  decode = λ s. then_read d (c.decode s);
}

abbrev pub made : {A B : Type 0} → (A → B) → Option (A × Bytes) → Option (B × Bytes)
made from none = none
made from (some (a, rest)) = some (from a, rest)

-- The members of an object, by the values that are written and the object made of those read.
unfoldable pub members : {A B : Type 0} → (B → A) → (A → B) → Codec A → Codec B
members to from c = record { encode = λ b. c.encode (to b); decode = λ s. made from (c.decode s) }

pub pair-IsLossless :
    {A B : Type 0} (c : Codec A) (d : Codec B) (P : A → Type 0) (Q : B → Type 0)
    → IsLossless c P
    → IsLossless d Q
    → IsLossless (pair c d) (λ v. P v.0 × Q v.1)
unfolding pair
pair-IsLossless c d P Q lc ld = record {
  reads_back = λ v rest h.
      rw
        (
          append_assoc (c.encode v.0) (d.encode v.1) rest,
          lc.reads_back v.0 (d.encode v.1 ++ rest) h.0,
          ld.reads_back v.1 rest h.1,
        )
        refl;
}

pub members-IsLossless :
    {A B : Type 0} (to : B → A) (from : A → B) (c : Codec A) (P : A → Type 0)
    → ((b : B) → from (to b) ≡ b)
    → IsLossless c P
    → IsLossless (members to from c) (λ b. P (to b))
unfolding members
members-IsLossless to from c P inverse l = record {
  reads_back = λ b rest h. rw (l.reads_back (to b) rest h, inverse b) refl;
}
