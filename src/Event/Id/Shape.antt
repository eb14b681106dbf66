-- ===== src/Event/Id/Shape.antt =====
-- `ValidID` against the shape of a canonical UUIDv7, place by place.
use mathlib.Core.Path.{subst, subst₂}
use duro_ledger.Base.{
  ℕ, zero, suc, ◌+◌, ◌<◌, ◌≡◌, ◌↔◌, refl, arith, Bool, true, ◌||◌, Option, none, some, [], ◌∷◌,
  ◌==◌, if◌then◌else◌, Bytes, length, get_elem?,
}
use duro_ledger.Event.Id.{is_hex, is_hyphen_place, id_loop, is_variant, test_at, valid_id}

-- What a canonical UUIDv7 has at place `i`: a hyphen between the groups of 8, 4, 4, 4 and 12
-- digits, the version digit 7, a variant digit whose high bits are 10, and hex digits elsewhere.
abbrev pub class_at : ℕ → ℕ → Bool
class_at i c =
    if i == 8 || (i == 13 || (i == 18 || i == 23))
    then c == b'-'
    else if i == 14
    then c == b'7'
    else if i == 19
    then is_variant c
    else is_hex c

pub record IsCanonical (id : Bytes) : Type 0 where
  pub length_36 : length id ≡ 36
  pub classes : (i c : ℕ) → get_elem? id i ≡ some c → class_at i c ≡ true

abbrev loop_class : ℕ → ℕ → Bool
loop_class i c = if is_hyphen_place i then c == b'-' else is_hex c

-- One turn of the loop.
id_loop-cons :
    (i c : ℕ) (s : Bytes)
    → (id_loop i (c ∷ s) ≡ true) ↔ ((loop_class i c ≡ true) × (id_loop (i + 1) s ≡ true))
unfolding id_loop
id_loop-cons i c s = ground arith

id_loop-at :
    (s : Bytes) (i : ℕ)
    → id_loop i s ≡ true
    → (j c : ℕ) → get_elem? s j ≡ some c
    → loop_class (i + j) c ≡ true
id_loop-at [] i h j c e = cc
id_loop-at (x ∷ s) i h zero c e =
    let place : i ≡ i + 0 = omega arith in
    let same : x ≡ c = cc in
    subst₂ (λ k d. loop_class k d ≡ true) place same ((id_loop-cons i x s).0 h).0
id_loop-at (x ∷ s) i h (suc j) c e =
    let place : (i + 1) + j ≡ i + suc j = omega arith in
    subst (λ k. loop_class k c ≡ true) place
      (id_loop-at s (i + 1) ((id_loop-cons i x s).0 h).1 j c e)

id_loop-all :
    (s : Bytes) (i : ℕ)
    → ((j c : ℕ) → get_elem? s j ≡ some c → loop_class (i + j) c ≡ true)
    → id_loop i s ≡ true
unfolding id_loop
id_loop-all [] i h = refl
id_loop-all (x ∷ s) i h =
    let here : i + 0 ≡ i = omega arith in
    (id_loop-cons i x s).1 (
      subst (λ k. loop_class k x ≡ true) here (h 0 x refl),
      id_loop-all s (i + 1) (λ j c e.
          let place : i + suc j ≡ (i + 1) + j = omega arith in
          subst (λ k. loop_class k c ≡ true) place (h (suc j) c e)),
    )

-- The tests of `ValidID` one by one.
valid_id-parts :
    (id : Bytes)
    → (valid_id id ≡ true) ↔ (
        (length id ≡ 36)
        × (id_loop 0 id ≡ true)
        × (test_at (λ c. c == b'7') (get_elem? id 14) ≡ true)
        × (test_at is_variant (get_elem? id 19) ≡ true))
unfolding valid_id
valid_id-parts id = ground arith

-- A place in range holds some byte.
get_elem?-some : (s : Bytes) (i : ℕ) → i < length s → (c : ℕ) × (get_elem? s i ≡ some c)
get_elem?-some [] i h = elim h [ ]
get_elem?-some (x ∷ s) zero h = (x, refl)
get_elem?-some (x ∷ s) (suc i) h = get_elem?-some s i (omega arith)

class_at-loop_class : (i c : ℕ) → class_at i c ≡ true → loop_class i c ≡ true
unfolding is_hex
class_at-loop_class i c h = ground arith

class_at-eq :
    (i c : ℕ)
    → loop_class i c ≡ true
    → (i ≡ 14 → (c == b'7') ≡ true)
    → (i ≡ 19 → is_variant c ≡ true)
    → class_at i c ≡ true
class_at-eq i c h seven variant = ground arith

test_at-some : (p : ℕ → Bool) (o : Option ℕ) (c : ℕ) → test_at p o ≡ true → o ≡ some c → p c ≡ true
test_at-some p none c h e = cc
test_at-some p (some d) c h e = let same : d ≡ c = cc in subst (λ k. p k ≡ true) same h

-- `ValidID` accepts exactly the canonical hyphenated UUIDv7 texts: 36 bytes, hyphens between the
-- groups of 8, 4, 4, 4 and 12, version digit 7, a variant digit among 8, 9, a and b in either case,
-- and hex digits in either case elsewhere.
pub valid_id_iff : (id : Bytes) → (valid_id id ≡ true) ↔ IsCanonical id
valid_id_iff id = (to, from)
  where
    to : valid_id id ≡ true → IsCanonical id
    to h =
        let parts = (valid_id-parts id).0 h in
        record {
          length_36 = parts.0;
          classes = λ i c e.
              class_at-eq i c
                (let place : 0 + i ≡ i = omega arith in
                  subst (λ k. loop_class k c ≡ true) place (id_loop-at id 0 parts.1 i c e))
                (λ p. test_at-some _ _ c parts.2 (subst (λ k. get_elem? id k ≡ some c) p e))
                (λ p. test_at-some _ _ c parts.3 (subst (λ k. get_elem? id k ≡ some c) p e));
        }

    from : IsCanonical id → valid_id id ≡ true
    from c =
        let n = c.length_36 in
        let (seven, at_seven) = get_elem?-some id 14 (omega arith) in
        let (variant, at_variant) = get_elem?-some id 19 (omega arith) in
        (valid_id-parts id).1 (
          c.length_36,
          id_loop-all id 0 (λ j x e.
              let place : j ≡ 0 + j = omega arith in
              subst (λ k. loop_class k x ≡ true) place (class_at-loop_class j x (c.classes j x e))),
          rw at_seven (c.classes 14 seven at_seven),
          rw at_variant (c.classes 19 variant at_variant),
        )
