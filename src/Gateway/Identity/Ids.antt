-- ===== src/Gateway/Identity/Ids.antt =====
-- What a request identifier of src/gateway.rs can hold.
use orihsus.Prelude.{
  ◌≡◌, refl, ◌⊎◌, inl, inr, ℕ, zero, suc, ◌<◌, ◌%◌, ◌/◌, ◌^◌, true, Option, none, some, List, [],
  ◌∷◌, ◌++◌, length, length-append, arith, Bool-cases,
}
use orihsus.Gateway.Headers.{Header, trim}
use orihsus.Gateway.Identity.{
  get_str, is_id_byte, all_id_bytes, is_valid_id, hex_code, hex_codes, or_generated,
  generate_request_id, request_id_for,
}

hex_code-is_id_byte : (d : ℕ) → d < 16 → is_id_byte (hex_code d) ≡ true
hex_code-is_id_byte d small = ground arith

all_id_bytes-++ :
    (xs ys : List ℕ)
    → all_id_bytes xs ≡ true
    → all_id_bytes ys ≡ true
    → all_id_bytes (xs ++ ys) ≡ true
unfolding all_id_bytes
all_id_bytes-++ [] ys hx hy = hy
all_id_bytes-++ (x ∷ xs) ys hx hy = ground (arith, all_id_bytes-++ xs ys)

hex_codes-Valid : (n m : ℕ) → (length (hex_codes n m) ≡ n) × (all_id_bytes (hex_codes n m) ≡ true)
unfolding hex_codes all_id_bytes
hex_codes-Valid zero m = (refl, refl)
hex_codes-Valid (suc n) m =
    let (long, good) = hex_codes-Valid n (m / 16) in
    (
      omega (arith, length-append (hex_codes n (m / 16)) (hex_code (m % 16) ∷ []), long),
      all_id_bytes-++ (hex_codes n (m / 16)) _ good
          (rw (hex_code-is_id_byte (m % 16) (omega arith)) refl),
    )

joined-Valid :
    (xs ys : List ℕ)
    → (length xs ≡ 16) × (all_id_bytes xs ≡ true)
    → (length ys ≡ 16) × (all_id_bytes ys ≡ true)
    → is_valid_id (xs ++ ys) ≡ true
joined-Valid xs ys (long, good) (wide, fine) =
    rw (length-append xs ys, long, wide, all_id_bytes-++ xs ys good fine) refl

generate_request_id-Valid :
    (counter now : ℕ) → is_valid_id (generate_request_id counter now).0 ≡ true
unfolding generate_request_id
generate_request_id-Valid counter now =
    joined-Valid _ _ (hex_codes-Valid 16 (now % 2 ^ 64)) (hex_codes-Valid 16 counter)

or_generated-Valid :
    (o : Option (List ℕ)) (counter now : ℕ)
    → (is_valid_id (or_generated o counter now).0 ≡ true)
      × ((or_generated o counter now ≡ generate_request_id counter now)
          ⊎ ((text : List ℕ) × (o ≡ some text)
              × (or_generated o counter now ≡ (trim text, counter))))
or_generated-Valid none counter now = (generate_request_id-Valid counter now, inl refl)
or_generated-Valid (some text) counter now = elim (Bool-cases (is_valid_id (trim text))) [
  | inl valid ↦ rw valid (valid, inr (text, refl, refl))
  | inr wrong ↦ rw wrong (generate_request_id-Valid counter now, inl refl)
]

-- Every request identifier has 1 to 128 bytes, each a letter, a digit or one of `-`, `_` and `.`,
-- whatever the client sends: it is a new one, or the client's own without the blanks around it, and
-- then the counter stays.
pub request_id_for-Valid :
    (hs : List Header) (counter now : ℕ)
    → (is_valid_id (request_id_for hs counter now).0 ≡ true)
      × ((request_id_for hs counter now ≡ generate_request_id counter now)
          ⊎ ((text : List ℕ) × (get_str hs "x-request-id" ≡ some text)
              × (request_id_for hs counter now ≡ (trim text, counter))))
unfolding request_id_for
request_id_for-Valid hs counter now = or_generated-Valid (get_str hs "x-request-id") counter now
