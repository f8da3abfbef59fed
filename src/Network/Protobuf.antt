-- ===== src/Network/Protobuf.antt =====
-- core/src/network/protobuf: messages over a stream, and the helpers for them. The generated code and
-- the framing of libp2p are arguments.

mod Tests
use polkadot_light_client.Common.{
  length, length-append, take, drop, replicate, length-replicate, take-append, drop_all, get_elem?,
  get_elem?-append, set_at, set_at-append, Bytes, ok, fault, Outcome, ◌>>=◌, ℕ, zero, suc, ◌+◌, ◌≡◌,
  refl, sym, ap, subst, ◌∙◌, Option, none, some, List, [], ◌∷◌, ◌++◌, map, append-nil, append_assoc,
  arith,
}

-- What libp2p does to a stream of a peer: open it, write a message to it, and read one.
pub record Streams (PeerId Stream Request Response : Type 0) : Type 0 where
  pub new_stream : PeerId → Bytes → Outcome Stream
  pub write : Stream → Request → Outcome ℕ
  pub read : Stream → Outcome Response

module _ {PeerId Stream Request Response : Type 0}
    (streams : Streams PeerId Stream Request Response) where
  -- `fromProto` of the type of the message.
  unfoldable pub read_message : {A : Type 0} → (Response → Outcome A) → Stream → Outcome A
  read_message from_proto stream = do response ← streams.read stream; from_proto response

  unfoldable pub write_message : {A : Type 0} → (A → Request) → A → Stream → Outcome (Unit {0})
  write_message to_proto msg stream = do written ← streams.write stream (to_proto msg); ok tt

-- `msg.SerializeToArray(&buf[old_size], …)` writes over the end of the buffer.
unfoldable pub write_to_vec : Bytes → Bytes → Bytes
write_to_vec serialized buf =
    let resized = buf ++ replicate (length serialized) 0 in
    take (length buf) resized ++ (serialized ++ drop (length buf + length serialized) resized)

-- A pointer that `release_…` gave: a null one fails the assertion.
abbrev pub take_from_ptr {ℓ} : {A : Type ℓ} → Option A → Outcome A
take_from_ptr none = fault
take_from_ptr (some value) = ok value

-- `result[i] = extract(collection[i])`, for each index: what is out of range is left as it is.

abbrev pub assign : {A B : Type 0} → (A → B) → ℕ → Option A → List B → List B
assign extract i none result = result
assign extract i (some a) result = set_at i (extract a) result

module _ {A B : Type 0} (extract : A → B) (collection : List A) where
  -- The round of the loop for `i`, and those after it, so many of them.
  unfoldable pub take_loop : ℕ → ℕ → List B → List B
  unfolding set_at get_elem?
  take_loop i zero result = result
  take_loop i (suc rounds) result =
      take_loop (suc i) rounds (assign extract i (get_elem? collection i) result)

  -- The elements of the vector are default-constructed first.
  unfoldable pub take_from_collection : B → List B
  unfolding take_loop
  take_from_collection default =
      take_loop 0 (length collection) (replicate (length collection) default)

-- Writing a message appends its serialization, and leaves what was in the buffer.
pub write_to_vec-eq : (serialized buf : Bytes) → write_to_vec serialized buf ≡ buf ++ serialized
unfolding write_to_vec
write_to_vec-eq serialized buf =
    let nothing : drop (length buf + length serialized) (buf ++ replicate (length serialized) 0)
        ≡ [] =
      drop_all (length buf + length serialized) (buf ++ replicate (length serialized) 0) (
        omega (
          arith,
          length-append buf (replicate (length serialized) 0),
          length-replicate {A = ℕ} (length serialized) 0,
        )) in
    rw (take-append, nothing, append-nil) refl

map-append : {A B : Type 0} (f : A → B) (xs ys : List A) → map f (xs ++ ys) ≡ map f xs ++ map f ys
map-append f [] ys = refl
map-append f (x ∷ xs) ys = ap (◌∷◌ (f x)) (map-append f xs ys)

length-map : {A B : Type 0} (f : A → B) (xs : List A) → length (map f xs) ≡ length xs
length-map f [] = refl
length-map f (x ∷ xs) = ap suc (length-map f xs)

take_loop_lem :
    {A : Type 0} {B : Type 0} (extract : A → B) (before after collection : List A) (default : B)
    → collection ≡ before ++ after
    → take_loop extract collection
        (length before)
        (length after)
        (map extract before ++ replicate (length after) default)
      ≡ map extract collection
unfolding take_loop replicate
take_loop_lem extract before [] collection default e =
    append-nil (map extract before) ∙ ap (map extract) (sym (e ∙ append-nil before))
take_loop_lem {B = B} extract before (a ∷ after) collection default e =
    let found : get_elem? collection (length before) ≡ some a =
      rw e (get_elem?-append before after a) in
    let more : suc (length before) ≡ length (before ++ a ∷ []) =
      omega (arith, length-append before (a ∷ [])) in
    let place : set_at (length before) (extract a)
          (map extract before ++ default ∷ replicate (length after) default)
        ≡ map extract (before ++ a ∷ []) ++ replicate (length after) default =
      subst
        (λ (n : ℕ).
          set_at n (extract a) (map extract before ++ default ∷ replicate (length after) default)
          ≡ map extract before ++ extract a ∷ replicate (length after) default)
        (length-map extract before)
        (set_at-append (map extract before) (replicate (length after) default) (extract a) default)
      ∙ sym (
          ap (λ (l : List B). l ++ replicate (length after) default)
            (map-append extract before (a ∷ []))
          ∙ append_assoc (map extract before) (extract a ∷ [])
              (replicate (length after) default)) in
    rw (take_loop, found, more, place)
      (take_loop_lem extract (before ++ a ∷ []) after collection default
        (e ∙ sym (append_assoc before (a ∷ []) after)))

-- What is taken from a collection is what the function makes of each element, in order.
pub take_from_collection-eq :
    {A B : Type 0} (extract : A → B) (collection : List A) (default : B)
    → take_from_collection extract collection default ≡ map extract collection
unfolding take_from_collection
take_from_collection-eq extract collection default =
    take_loop_lem extract [] collection collection default refl
