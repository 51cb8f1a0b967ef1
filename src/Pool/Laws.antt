-- ===== src/Pool/Laws.antt =====
-- What a buffer that the pool hands out is good for, and when the pool grows.
use aq_md3_acquisition_conso.Common.{
  ℕ, zero, suc, ◌+◌, ◌%◌, ◌≤◌, ◌<◌, ◌≡◌, refl, sym, ap, ◌≢◌, ◌⊎◌, inl, inr, true, false, Option,
  none, some, List, [], ◌∷◌, arith, ◌==◌, length, get_elem?, set, Bool-cases, push_back,
}
use aq_md3_acquisition_conso.Common.Word.{u64}
use aq_md3_acquisition_conso.Buffer.{create, reset}
use aq_md3_acquisition_conso.Pool.{
  Slot, AcquisitionBufferPool, find_free, is_free, held, with_found, take_slot, get_buffer,
}

module _ {ℓ} {A : Type ℓ} where
  get_elem?-set_self :
      (xs : List A) (i : ℕ) (v : A) → i < length xs → get_elem? (set xs i v) i ≡ some v
  get_elem?-set_self [] i v h = absurd (omega arith)
  get_elem?-set_self (x ∷ xs) zero v h = refl
  get_elem?-set_self (x ∷ xs) (suc i) v h = get_elem?-set_self xs i v (omega arith)

  get_elem?-set_ne :
      (xs : List A) (i j : ℕ) (v : A) → i ≢ j → get_elem? (set xs i v) j ≡ get_elem? xs j
  get_elem?-set_ne [] i j v h = refl
  get_elem?-set_ne (x ∷ xs) zero zero v h = absurd (h refl)
  get_elem?-set_ne (x ∷ xs) zero (suc j) v h = refl
  get_elem?-set_ne (x ∷ xs) (suc i) zero v h = refl
  get_elem?-set_ne (x ∷ xs) (suc i) (suc j) v h = get_elem?-set_ne xs i j v (λ e. h (ap suc e))

  get_elem?-push_back_old :
      (xs : List A) (j : ℕ) (v : A) → j < length xs → get_elem? (push_back xs v) j ≡ get_elem? xs j
  get_elem?-push_back_old [] j v h = absurd (omega arith)
  get_elem?-push_back_old (x ∷ xs) zero v h = refl
  get_elem?-push_back_old (x ∷ xs) (suc j) v h = get_elem?-push_back_old xs j v (omega arith)

  get_elem?-push_back_new : (xs : List A) (v : A) → get_elem? (push_back xs v) (length xs) ≡ some v
  get_elem?-push_back_new [] v = refl
  get_elem?-push_back_new (x ∷ xs) v = get_elem?-push_back_new xs v

  get_elem?-lt : (xs : List A) (i : ℕ) (a : A) → get_elem? xs i ≡ some a → i < length xs
  get_elem?-lt [] i a h = cc
  get_elem?-lt (x ∷ xs) zero a h = omega arith
  get_elem?-lt (x ∷ xs) (suc i) a h = omega (arith, get_elem?-lt xs i a h)

abbrev pub IsFreeAt : List Slot → ℕ → Type 0
IsFreeAt slots i = is_free (get_elem? slots i) ≡ true

pub free_slot : (o : Option Slot) → is_free o ≡ true → (s : Slot) × (o ≡ some s) × (s.holders ≡ 0)
free_slot none h = cc
free_slot (some s) h = (s, refl, ground arith)

pub find_free-IsFreeAt :
    (slots : List Slot) (takes i left index : ℕ)
    → find_free slots takes i left ≡ some index
    → IsFreeAt slots index
unfolding find_free
find_free-IsFreeAt slots takes i zero index h = cc
find_free-IsFreeAt slots takes i (suc left) index h =
    ground (arith, find_free-IsFreeAt slots takes (i + 1) left index)

-- The rounds that were passed over found no free slot.
pub find_free-none :
    (slots : List Slot) (takes i left k : ℕ)
    → find_free slots takes i left ≡ none
    → i ≤ k
    → k < i + left
    → is_free (get_elem? slots (u64 (takes + k) % length slots)) ≡ false
unfolding find_free
find_free-none slots takes i zero k h a b = absurd (omega arith)
find_free-none slots takes i (suc left) k h a b =
    elim (Bool-cases (is_free (get_elem? slots (u64 (takes + i) % length slots)))) [
      | inl free ↦ absurd (ground arith)
      | inr busy ↦ elim (Bool-cases (i == k)) [
        | inl here ↦ ground arith
        | inr there ↦
            find_free-none slots takes (i + 1) left k (ground arith) (ground arith) (omega arith)
      ]
    ]

-- A slot that nobody held, or one past those that there were.
abbrev pub WasFree : AcquisitionBufferPool → ℕ → Type 0
WasFree p index =
    ((s : Slot) × (get_elem? p.samples_buffer_pool index ≡ some s) × (s.holders ≡ 0))
    ⊎ (index ≡ length p.samples_buffer_pool)

-- What `get_buffer` leaves: the slot it names was held by nobody, is now held by the caller alone and is
-- as new, and every other slot is as it was.
pub record Grants (p q : AcquisitionBufferPool) (index : ℕ) : Type 0 where
  pub was_free : WasFree p index
  pub slot : Slot
  pub there : get_elem? q.samples_buffer_pool index ≡ some slot
  pub alone : slot.holders ≡ 1
  pub acquired : slot.buffer.acquired_index ≡ 0
  pub processed : slot.buffer.processed_index ≡ 0
  pub offset : slot.buffer.offset ≡ 0
  pub others :
      (j : ℕ)
      → j ≢ index
      → j < length p.samples_buffer_pool
      → get_elem? q.samples_buffer_pool j ≡ get_elem? p.samples_buffer_pool j

taken-Grants :
    (p : AcquisitionBufferPool) (index : ℕ) (s : Slot)
    → get_elem? p.samples_buffer_pool index ≡ some s
    → s.holders ≡ 0
    → Grants p (take_slot p index (some s)).0 index
unfolding reset
taken-Grants p index s e free = record {
  was_free = inl (s, e, free);
  slot = held (record s { buffer = reset s.buffer });
  there =
      get_elem?-set_self p.samples_buffer_pool index (held (record s { buffer = reset s.buffer }))
        (get_elem?-lt p.samples_buffer_pool index s e);
  alone = ap suc free;
  acquired = refl;
  processed = refl;
  offset = refl;
  others = λ j h _.
      get_elem?-set_ne p.samples_buffer_pool index j (held (record s { buffer = reset s.buffer }))
        (λ x. h (sym x));
}

added-Grants :
    (p : AcquisitionBufferPool) → Grants p (with_found p none).0 (length p.samples_buffer_pool)
unfolding create
added-Grants p = record {
  was_free = inr refl;
  slot =
      held (record { buffer = create p.max_triggers_per_read p.samples_per_trigger; holders = 0 });
  there = get_elem?-push_back_new p.samples_buffer_pool _;
  alone = refl;
  acquired = refl;
  processed = refl;
  offset = refl;
  others = λ j _ lt. get_elem?-push_back_old p.samples_buffer_pool j _ lt;
}

-- A buffer that `get_buffer` hands out was held by nobody, or is new; it is then held by its caller
-- alone and starts empty, and every other buffer is as it was.
pub get_buffer-Grants : (p : AcquisitionBufferPool) → Grants p (get_buffer p).0 (get_buffer p).1
unfolding get_buffer
get_buffer-Grants p = go (find_free slots p.buffer_takes 0 (length slots)) refl
  where
    slots : List Slot
    slots = p.samples_buffer_pool

    go :
        (o : Option ℕ)
        → find_free slots p.buffer_takes 0 (length slots) ≡ o
        → Grants p (with_found p o).0 (with_found p o).1
    go none e = added-Grants p
    go (some index) e =
        let (s, at, free) =
          free_slot (get_elem? slots index)
            (find_free-IsFreeAt slots p.buffer_takes 0 (length slots) index e) in
        rw at (taken-Grants p index s at free)
