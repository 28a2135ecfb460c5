-- ===== src/Placement/Readback.antt =====
-- src/platform/windows_topology.rs: `read_with`, the two kinds of calls of the operating system and
-- the retries. What the system answers may depend on the calls before.
use zenbench.Prelude.{
  ℕ, zero, suc, ◌+◌, ◌*◌, ◌/◌, ◌<◌, ◌≤◌, ◌≡◌, refl, sym, ◌∙◌, subst, Bool, true, false, Option,
  none, some, List, [], ◌∷◌, length, All, if◌then◌else◌, not, ◌&&◌, ◌||◌, ltb, leb, arith, Result,
  ok, err, inl, inr, Bool-cases, if-true, if-false,
}
use zenbench.Placement.Windows.{take}

-- the result of a call: success, ERROR_INSUFFICIENT_BUFFER or another error
pub data Status : Type 0 where
  done insufficient failed : Status

-- what a call leaves: its result, the length and the bytes of the storage
pub record Answer : Type 0 where
  pub status : Status
  pub reported : ℕ
  pub bytes : List ℕ

pub data ReadError : Type 0 where
  unexpected_success bad_size no_memory bad_readback changed query_failed : ReadError

-- the words of the storage, where there is one, and the length that a call is given
abbrev pub Call : Type 0
Call = Option ℕ × ℕ

-- 16 MiB
abbrev pub max_bytes : ℕ
max_bytes = 16777216

-- `capacity.div_ceil(8)`
abbrev pub words_for : ℕ → ℕ
words_for capacity = (capacity + 7) / 8

unfoldable pub readback : ℕ → Answer → Result ReadError (List ℕ)
readback capacity answer =
    if ltb answer.reported 8 || ltb capacity answer.reported
    then err ReadError.bad_readback
    else ok (take answer.reported answer.bytes)

module _ (reserves : ℕ → Bool) (query : List Call → Option ℕ → ℕ → Answer) where
  -- the `match` on the answer, with what the next attempt gives
  unfoldable pub settle :
      Status
      → List Call
      → Result ReadError (List ℕ)
      → List Call × Result ReadError (List ℕ)
      → List Call × Result ReadError (List ℕ)
  settle Status.done calls outcome next = (calls, outcome)
  settle Status.insufficient calls outcome next = next
  settle Status.failed calls outcome next = (calls, err ReadError.query_failed)

  -- the loop, with the calls that were made, the last one first
  unfoldable pub attempts : ℕ → List Call → ℕ → List Call × Result ReadError (List ℕ)
  unfolding settle readback
  attempts zero calls capacity = (calls, err ReadError.changed)
  attempts (suc n) calls capacity =
      let words = words_for capacity in
      let answer = query calls (some words) capacity in
      let made = (some words, capacity) ∷ calls in
      let next = attempts n made answer.reported in
      if not (leb 8 capacity && leb capacity max_bytes)
      then (calls, err ReadError.bad_size)
      else if not (reserves words)
      then (calls, err ReadError.no_memory)
      else settle answer.status made (readback capacity answer) next

  -- what the first call, without storage, leads to
  unfoldable pub sized : Status → List Call → ℕ → List Call × Result ReadError (List ℕ)
  unfolding attempts
  sized Status.done calls reported = (calls, err ReadError.unexpected_success)
  sized Status.insufficient calls reported = attempts 3 calls reported
  sized Status.failed calls reported = (calls, err ReadError.query_failed)

  unfoldable pub read_with : List Call × Result ReadError (List ℕ)
  unfolding sized
  read_with = let answer = query [] none 0 in sized answer.status ((none, 0) ∷ []) answer.reported

  -- A call for data has 8 bytes to 16 MiB, and storage for all of them in whole words.
  abbrev pub IsBounded : Call → Type 0
  IsBounded (none, given) = given ≡ 0
  IsBounded (some words, given) =
      (8 ≤ given) × (given ≤ max_bytes) × (given ≤ 8 * words) × (8 * words < given + 8)

  -- The bytes are those that the last call says it has written, at least 8 and within its capacity.
  pub record IsAnswer (calls : List Call) (bytes : List ℕ) (words capacity : ℕ)
      (earlier : List Call) : Type 0 where
    pub last : calls ≡ (some words, capacity) ∷ earlier
    pub success : (query earlier (some words) capacity).status ≡ Status.done
    pub enough : 8 ≤ (query earlier (some words) capacity).reported
    pub inside : (query earlier (some words) capacity).reported ≤ capacity
    pub taken :
        bytes
        ≡ take
            (query earlier (some words) capacity).reported
            (query earlier (some words) capacity).bytes

  abbrev pub IsOutcome : List Call → Result ReadError (List ℕ) → Type 0
  IsOutcome calls (err e) = Unit
  IsOutcome calls (ok bytes) =
      (words : ℕ) × ((capacity : ℕ) × ((earlier : List Call) × IsAnswer calls bytes words capacity
            earlier))

  abbrev pub IsReadback : List Call × Result ReadError (List ℕ) → Type 0
  IsReadback (calls, outcome) = (length calls ≤ 4) × (All IsBounded calls × IsOutcome calls outcome)

  readback-IsOutcome :
      (words capacity : ℕ) (earlier : List Call)
      → (query earlier (some words) capacity).status ≡ Status.done
      → IsOutcome
          ((some words, capacity) ∷ earlier)
          (readback capacity (query earlier (some words) capacity))
  unfolding readback
  readback-IsOutcome words capacity earlier success =
      let answer = query earlier (some words) capacity in
      elim (Bool-cases (ltb answer.reported 8 || ltb capacity answer.reported)) [
        | inl refused ↦
            subst (IsOutcome ((some words, capacity) ∷ earlier)) (sym (if-true _ _ refused)) tt
        | inr accepted ↦
            subst (IsOutcome ((some words, capacity) ∷ earlier)) (sym (if-false _ _ accepted)) (
              words,
              (
                capacity,
                (
                  earlier,
                  record {
                    last = refl;
                    success = success;
                    enough = ground arith;
                    inside = ground arith;
                    taken = refl;
                  },
                ),
              ),
            )
      ]

  settle-IsReadback :
      (status : Status) (made : List Call) (outcome : Result ReadError (List ℕ))
      (next : List Call × Result ReadError (List ℕ))
      → length made ≤ 4
      → All IsBounded made
      → (status ≡ Status.done → IsOutcome made outcome)
      → IsReadback next
      → IsReadback (settle status made outcome next)
  unfolding settle
  settle-IsReadback Status.done made outcome next few bounded outcome_of h =
      (few, (bounded, outcome_of refl))
  settle-IsReadback Status.insufficient made outcome next few bounded outcome_of h = h
  settle-IsReadback Status.failed made outcome next few bounded outcome_of h = (few, (bounded, tt))

  words_fit :
      (capacity : ℕ)
      → (leb 8 capacity && leb capacity max_bytes) ≡ true
      → IsBounded (some (words_for capacity), capacity)
  words_fit capacity h = ground arith

  attempts-IsReadback :
      (n : ℕ) (calls : List Call) (capacity : ℕ)
      → length calls + n ≤ 4
      → All IsBounded calls
      → IsReadback (attempts n calls capacity)
  unfolding attempts
  attempts-IsReadback zero calls capacity fits bounded = (omega (arith, fits), (bounded, tt))
  attempts-IsReadback (suc n) calls capacity fits bounded =
      let words = words_for capacity in
      let answer = query calls (some words) capacity in
      let made : List Call = (some words, capacity) ∷ calls in
      elim (Bool-cases (not (leb 8 capacity && leb capacity max_bytes))) [
        | inl wrong ↦
            subst IsReadback (sym (if-true _ _ wrong)) (omega (arith, fits), (bounded, tt))
        | inr right ↦ elim (Bool-cases (not (reserves words))) [
          | inl full ↦
              subst IsReadback (sym (if-true _ _ full) ∙ sym (if-false _ _ right))
                (omega (arith, fits), (bounded, tt))
          | inr reserved ↦
              let all_made : All IsBounded made = (words_fit capacity (unnot _ right), bounded) in
              subst IsReadback (sym (if-false _ _ reserved) ∙ sym (if-false _ _ right)) (
                settle-IsReadback answer.status made (readback capacity answer)
                  (attempts n made answer.reported) (omega (arith, fits)) all_made
                  (readback-IsOutcome words capacity calls)
                  (attempts-IsReadback n made answer.reported (omega (arith, fits)) all_made))
        ]
      ]
    where
      unnot : (b : Bool) → not b ≡ false → b ≡ true
      unnot true h = refl
      unnot false h = sym h

  sized-IsReadback :
      (status : Status) (reported : ℕ) → IsReadback (sized status ((none, 0) ∷ []) reported)
  unfolding sized
  sized-IsReadback Status.done reported = (omega arith, ((refl, tt), tt))
  sized-IsReadback Status.insufficient reported =
      attempts-IsReadback 3 ((none, 0) ∷ []) reported (omega arith) (refl, tt)
  sized-IsReadback Status.failed reported = (omega arith, ((refl, tt), tt))

  -- Whatever the system answers and however much memory there is, reading back makes at most four
  -- calls, each for data with 8 bytes to 16 MiB of storage in whole words. Bytes that it returns are
  -- those of the last call, which has succeeded and reported 8 bytes up to its capacity.
  pub read_with-IsReadback : IsReadback read_with
  unfolding read_with
  read_with-IsReadback = sized-IsReadback (query [] none 0).status (query [] none 0).reported
