-- ===== src/Extras/FixedPool/Steps.antt =====
-- include/extras/fixed_pool.hpp: the atomic actions of the users of a pool, and what they preserve.
use voxen.Prelude.{
  ℕ, ◌+◌, ◌-◌, ◌%◌, ◌<◌, ◌≡◌, arith, ◌∙◌, Bool, true, false, ◌||◌, List, ltb, ◌==◌, if◌then◌else◌,
  get_or, set, length, length-set, get_or-set_self, get_or-set_ne, Bool-cases, inl, inr, ==→eq,
  ==_ne,
}
use voxen.Extras.Bitset.{test}
use voxen.Extras.Bitset.Bits.{IsValid, set_clear_test}
use voxen.Extras.FixedPool.{
  FixedPool, Allocated, null, threw, object, new, allocate, usage, acquire_ref, release_ref,
  clear_slot,
}

-- The pool, the slots whose last owner has not cleared the bit yet, and the ledger of the users: how
-- many pointers to each slot exist. No action of the pool reads the ledger.
pub record State : Type 0 where
  pub pool : FixedPool
  pub clearing : ℕ → Bool
  pub owners : ℕ → ℕ

abbrev pub mark : (ℕ → Bool) → ℕ → Bool → ℕ → Bool
mark f id b j = if id == j then b else f j

abbrev pub add_owner : ℕ → (ℕ → ℕ) → ℕ → ℕ
add_owner id owners j = if id == j then owners j + 1 else owners j

abbrev pub drop_owner : ℕ → (ℕ → ℕ) → ℕ → ℕ
drop_owner id owners j = if id == j then owners j - 1 else owners j

-- The user of `allocate` owns the slot that it is given.
abbrev pub grant : Allocated → (ℕ → ℕ) → ℕ → ℕ
grant null owners = owners
grant threw owners = owners
grant (object id) owners = add_owner id owners

abbrev pub allocate_step : ℕ → Bool → State → State
allocate_step n constructs s = record s {
  pool = (allocate n constructs s.pool).1;
  owners = grant (allocate n constructs s.pool).0 s.owners;
}

abbrev pub acquire_step : ℕ → State → State
acquire_step id s = record s { pool = acquire_ref id s.pool; owners = add_owner id s.owners }

abbrev pub release_step : ℕ → State → State
release_step id s = record {
  pool = (release_ref id s.pool).1;
  clearing = mark s.clearing id (release_ref id s.pool).0;
  owners = drop_owner id s.owners;
}

abbrev pub clear_step : ℕ → State → State
clear_step id s = record s { pool = clear_slot id s.pool; clearing = mark s.clearing id false }

-- One atomic action. A user copies or drops a pointer that exists, and at most 255 pointers to a
-- slot exist at a time.
pub data Step (n : ℕ) (s : State) : State → Type 0 where
  allocates : (constructs : Bool) → Step n s (allocate_step n constructs s)
  acquires : (id : ℕ) → id < n → 0 < s.owners id → s.owners id < 255 → Step n s (acquire_step id s)
  releases : (id : ℕ) → id < n → 0 < s.owners id → Step n s (release_step id s)
  clears : (id : ℕ) → id < n → s.clearing id ≡ true → Step n s (clear_step id s)

pub data Reach (n : ℕ) : State → Type 0 where
  start :
      (counts : List ℕ)
      → length counts ≡ n
      → ((id : ℕ) → get_or counts id 0 ≡ 0)
      → Reach n (record { pool = new n counts; clearing = λ id. false; owners = λ id. 0 })
  step : {s t : State} → Reach n s → Step n s t → Reach n t

-- The bit of a slot is set exactly while it has owners or is being cleared, never both, and its
-- count is the number of its owners.
pub record IsSafe (n : ℕ) (s : State) : Type 0 where
  pub bitmap : IsValid n s.pool.used_bitmap
  pub counts : length s.pool.usage_counts ≡ n
  pub bytes : (id : ℕ) → usage s.pool id < 256
  pub owned : (id : ℕ) → usage s.pool id ≡ s.owners id
  pub in_use :
      (id : ℕ) → id < n → test s.pool.used_bitmap id ≡ (ltb 0 (usage s.pool id) || s.clearing id)
  pub unowned : (id : ℕ) → s.clearing id ≡ true → usage s.pool id ≡ 0

pub usage-set :
    (cs : List ℕ) (id j v : ℕ)
    → id < length cs
    → get_or (set cs id v) j 0 ≡ (if id == j then v else get_or cs j 0)
usage-set cs id j v h = elim (Bool-cases (id == j)) [
  | inl e ↦ rw (e, ← ==→eq id j e) (get_or-set_self cs id v 0 h)
  | inr e ↦ rw e (get_or-set_ne cs id j v 0 (==_ne id j e))
]

pub acquire-IsSafe :
    (n id : ℕ) (s : State)
    → IsSafe n s
    → id < n
    → 0 < s.owners id
    → s.owners id < 255
    → IsSafe n (acquire_step id s)
unfolding acquire_ref
acquire-IsSafe n id s v h pos small =
    let at = λ (j : ℕ).
      usage-set s.pool.usage_counts id j ((usage s.pool id + 1) % 256) (omega (arith, v.counts)) in
    record {
      bitmap = v.bitmap;
      counts = length-set s.pool.usage_counts id ((usage s.pool id + 1) % 256) ∙ v.counts;
      bytes = λ j. ground (arith, at j, v.bytes j);
      owned = λ j. ground (arith, at j, v.owned j, v.owned id);
      in_use = λ j k. v.in_use j k ∙ ground (arith, at j, v.owned id);
      unowned = λ j c. ground (arith, at j, v.unowned j c, v.owned id);
    }

pub release-IsSafe :
    (n id : ℕ) (s : State) → IsSafe n s → id < n → 0 < s.owners id → IsSafe n (release_step id s)
unfolding release_ref
release-IsSafe n id s v h pos =
    let at = λ (j : ℕ).
      usage-set s.pool.usage_counts id j ((usage s.pool id + 255) % 256)
        (omega (arith, v.counts)) in
    record {
      bitmap = v.bitmap;
      counts = length-set s.pool.usage_counts id ((usage s.pool id + 255) % 256) ∙ v.counts;
      bytes = λ j. ground (arith, at j, v.bytes j);
      owned = λ j. ground (arith, at j, v.owned j, v.owned id, v.bytes id);
      in_use =
          λ j k. v.in_use j k ∙ ground (arith, at j, v.bytes j, v.unowned j, v.owned j, v.owned id);
      unowned = λ j c. ground (arith, at j, v.unowned j, v.bytes id, v.owned id);
    }

pub clear-IsSafe :
    (n id : ℕ) (s : State) → IsSafe n s → id < n → s.clearing id ≡ true → IsSafe n (clear_step id s)
unfolding clear_slot
clear-IsSafe n id s v h c = record {
  bitmap = (set_clear_test n s.pool.used_bitmap id id v.bitmap h h).3;
  counts = v.counts;
  bytes = v.bytes;
  owned = v.owned;
  in_use = λ j k.
      ground (
        arith,
        set_clear_test n s.pool.used_bitmap id j v.bitmap h k,
        v.in_use j k,
        v.unowned id c,
      );
  unowned = λ j d. ground (arith, v.unowned j);
}
