-- ===== src/Hasher/Chrono.antt =====
-- Samples that arrive in the order of their times are held in that order, which is what the binary
-- search of the queries relies on.
use mathlib.Core.Path.{subst₂}
use modbus_tcplogger.Common.{
  ℕ, zero, suc, ◌+◌, ◌≤◌, ◌<◌, ◌≡◌, ap, ◌∙◌, inl, inr, List, [], ◌∷◌, ◌++◌, arith, ltb, Bool-cases,
  length, get_or, All,
}
use modbus_tcplogger.Common.Int.{ℤ, ◌≤ℤ◌}
use modbus_tcplogger.Common.Float.{Floats}
use modbus_tcplogger.Hasher.{
  HashedValue, ValueHasher, HashState, normal, in_fail, fail_reported, default_value, elapsed_over,
  stable_delta_default, failure_delta_default,
}
use modbus_tcplogger.Hasher.Window.{drop_last, tail}
use modbus_tcplogger.Hasher.Spec.{
  Tracker, push, set_last, newest, observe, judge_fail, observe_fail, observe_value, track,
}
use modbus_tcplogger.Hasher.Ring.{IsRing, dist, contents, length-contents}
use modbus_tcplogger.Hasher.Query.{probe}
use modbus_tcplogger.Hasher.Search.{SortedTo}
use modbus_tcplogger.Hasher.Answer.{probes, contents-probes}

module _ {F : Type 0} where
  abbrev pub UpTo : ℤ → List (HashedValue F) → Type 0
  UpTo now es = All (λ x. x.timestamp ≤ℤ now) es

  abbrev pub From : ℤ → List (HashedValue F) → Type 0
  From start es = All (λ x. start ≤ℤ x.timestamp) es

  abbrev pub IsSorted : List (HashedValue F) → Type 0
  IsSorted [] = Unit {0}
  IsSorted (x ∷ xs) = From x.timestamp xs × IsSorted xs

  -- In the order of their times, none later than `now`.
  abbrev pub Chrono : ℤ → List (HashedValue F) → Type 0
  Chrono now es = IsSorted es × UpTo now es

  UpTo-later : (a b : ℤ) (es : List (HashedValue F)) → a ≤ℤ b → UpTo a es → UpTo b es
  UpTo-later a b [] l h = tt
  UpTo-later a b (x ∷ xs) l h = (omega (arith, h.0), UpTo-later a b xs l h.1)

  From-snoc :
      (s : ℤ) (es : List (HashedValue F)) (x : HashedValue F)
      → From s es
      → s ≤ℤ x.timestamp
      → From s (es ++ (x ∷ []))
  From-snoc s [] x h l = (l, tt)
  From-snoc s (e ∷ es) x h l = (h.0, From-snoc s es x h.1 l)

  pub Chrono-snoc :
      (now : ℤ) (es : List (HashedValue F)) (x : HashedValue F)
      → Chrono now es
      → now ≤ℤ x.timestamp
      → Chrono x.timestamp (es ++ (x ∷ []))
  Chrono-snoc now [] x h l = ((tt, tt), (omega arith, tt))
  Chrono-snoc now (e ∷ es) x h l =
      let rest = Chrono-snoc now es x (h.0.1, h.1.1) l in
      (
        (From-snoc e.timestamp es x h.0.0 (omega (arith, h.1.0)), rest.0),
        (omega (arith, h.1.0), rest.1),
      )

  pub Chrono-later :
      (now t : ℤ) (es : List (HashedValue F)) → now ≤ℤ t → Chrono now es → Chrono t es
  Chrono-later now t es l h = (h.0, UpTo-later now t es l h.1)

  pub Chrono-tail : (now : ℤ) (es : List (HashedValue F)) → Chrono now es → Chrono now (tail es)
  Chrono-tail now [] h = h
  Chrono-tail now (e ∷ es) h = (h.0.1, h.1.1)

  From-drop_last : (s : ℤ) (es : List (HashedValue F)) → From s es → From s (drop_last es)
  From-drop_last s [] h = tt
  From-drop_last s (e ∷ []) h = tt
  From-drop_last s (e ∷ e' ∷ es) h = (h.0, From-drop_last s (e' ∷ es) h.1)

  pub Chrono-drop_last :
      (now : ℤ) (es : List (HashedValue F)) → Chrono now es → Chrono now (drop_last es)
  Chrono-drop_last now [] h = (tt, tt)
  Chrono-drop_last now (e ∷ []) h = (tt, tt)
  Chrono-drop_last now (e ∷ e' ∷ es) h =
      let rest = Chrono-drop_last now (e' ∷ es) (h.0.1, h.1.1) in
      ((From-drop_last e.timestamp (e' ∷ es) h.0.0, rest.0), (h.1.0, rest.1))

  pub Chrono-push :
      (cap : ℕ) (now : ℤ) (es : List (HashedValue F)) (x : HashedValue F)
      → Chrono now es
      → now ≤ℤ x.timestamp
      → Chrono x.timestamp (push cap es x)
  Chrono-push cap now es x h l = elim (Bool-cases (ltb (length es) cap)) [
    | inl lt ↦ rw lt (Chrono-snoc now es x h l)
    | inr ge ↦ rw ge (Chrono-snoc now (tail es) x (Chrono-tail now es h) l)
  ]

  pub Chrono-set_last :
      (now : ℤ) (es : List (HashedValue F)) (x : HashedValue F)
      → Chrono now es
      → now ≤ℤ x.timestamp
      → Chrono x.timestamp (set_last es x)
  Chrono-set_last now es x h l = Chrono-snoc now (drop_last es) x (Chrono-drop_last now es h) l

  sorted_at :
      (es : List (HashedValue F)) (d : HashedValue F) (i j : ℕ)
      → IsSorted es
      → i ≤ j
      → j < length es
      → (get_or es i d).timestamp ≤ℤ (get_or es j d).timestamp
  sorted_at [] d i j s l u = absurd (omega arith)
  sorted_at (x ∷ xs) d zero zero s l u = omega arith
  sorted_at (x ∷ xs) d zero (suc j) s l u = from_at xs d j s.0 (omega arith)
    where
      from_at :
          (ys : List (HashedValue F)) (d : HashedValue F) (j : ℕ)
          → From x.timestamp ys
          → j < length ys
          → x.timestamp ≤ℤ (get_or ys j d).timestamp
      from_at [] d j h u = absurd (omega arith)
      from_at (y ∷ ys) d zero h u = h.0
      from_at (y ∷ ys) d (suc j) h u = from_at ys d j h.1 (omega arith)
  sorted_at (x ∷ xs) d (suc i) zero s l u = absurd (omega arith)
  sorted_at (x ∷ xs) d (suc i) (suc j) s l u = sorted_at xs d i j s.1 (omega arith) (omega arith)

module _ (fl : Floats) where
  open fl use {F, feq, f64_min}

  get_or-probes :
      (h : ValueHasher F) (k n i : ℕ)
      → i < n
      → get_or (probes fl h k n) i (default_value fl) ≡ probe fl h.hashed_values h.tail (k + i)
  get_or-probes h k zero i l = absurd (omega arith)
  get_or-probes h k (suc n) zero l = ap (probe fl h.hashed_values h.tail) (omega arith)
  get_or-probes h k (suc n) (suc i) l =
      get_or-probes h (k + 1) n i (omega arith) ∙ ap (probe fl h.hashed_values h.tail) (omega arith)

  get_or-contents :
      (h : ValueHasher F) (i : ℕ)
      → IsRing h
      → i < suc (dist h)
      → get_or (contents fl h) i (default_value fl) ≡ probe fl h.hashed_values h.tail i
  get_or-contents h i r l =
      ap (λ es. get_or es i (default_value fl)) (contents-probes fl h r)
      ∙ get_or-probes h 0 (suc (dist h)) i l
      ∙ ap (probe fl h.hashed_values h.tail) (omega arith)

  -- Sorted samples make a sorted ring.
  pub ring_SortedTo :
      (h : ValueHasher F)
      → IsRing h
      → IsSorted (contents fl h)
      → SortedTo fl h.hashed_values h.tail (suc (dist h))
  ring_SortedTo h r c i j l u =
      let le = sorted_at (contents fl h) (default_value fl) i j c l (rw (length-contents fl h) u) in
      subst₂ (λ (x y : HashedValue F). x.timestamp ≤ℤ y.timestamp)
        (get_or-contents h i r (omega arith)) (get_or-contents h j r u) le

  judge_fail-Chrono :
      (s : Tracker F) (now t : ℤ) → Chrono now s.log → now ≤ℤ t → Chrono t (judge_fail fl s t).0.log
  unfolding judge_fail
  judge_fail-Chrono s now t c l =
      let x : HashedValue F = record (newest fl s.log) { timestamp = t } in
      elim (Bool-cases (elapsed_over t (newest fl s.log).timestamp failure_delta_default)) [
        | inl over ↦ rw over (Chrono-set_last now s.log x c l)
        | inr not_over ↦ rw not_over (Chrono-later now t s.log l c)
      ]

  observe-Chrono :
      (cap : ℕ) (s : Tracker F) (x : HashedValue F) (now : ℤ)
      → Chrono now s.log
      → now ≤ℤ x.timestamp
      → Chrono x.timestamp (observe fl cap s x).0.log
  unfolding observe
  observe-Chrono cap s x now c l =
      let y : HashedValue F = record (newest fl s.log) { timestamp = x.timestamp } in
      elim (Bool-cases (feq (newest fl s.log).val x.val)) [
        | inl same ↦
            elim (Bool-cases (elapsed_over x.timestamp s.last_emitted stable_delta_default)) [
              | inl over ↦ rw (same, over) (Chrono-push cap now s.log x c l)
              | inr not_over ↦ rw (same, not_over) (Chrono-set_last now s.log y c l)
            ]
        | inr changed ↦ rw changed (Chrono-push cap now s.log x c l)
      ]

  -- A sample that is not earlier than those before it keeps the log in order.
  pub track-Chrono :
      (cap : ℕ) (s : Tracker F) (x : HashedValue F) (now : ℤ)
      → Chrono now s.log
      → now ≤ℤ x.timestamp
      → Chrono x.timestamp (track fl cap s x).0.log
  unfolding track
  track-Chrono cap s x now c l = elim (Bool-cases (feq x.val f64_min)) [
    | inl fail ↦ rw fail (observe_fail-Chrono s.mode)
    | inr value ↦ rw value (observe_value-Chrono s.mode)
  ]
    where
      observe_fail-Chrono : (m : HashState) → Chrono x.timestamp (observe_fail fl cap m s x).0.log
      observe_fail-Chrono normal =
          unfold observe_fail in
          judge_fail-Chrono _ x.timestamp x.timestamp (Chrono-push cap now s.log x c l)
            (omega arith)
      observe_fail-Chrono in_fail = unfold observe_fail in judge_fail-Chrono s now x.timestamp c l
      observe_fail-Chrono fail_reported =
          unfold observe_fail in Chrono-later now x.timestamp s.log l c

      observe_value-Chrono : (m : HashState) → Chrono x.timestamp (observe_value fl cap m s x).0.log
      observe_value-Chrono normal = unfold observe_value in observe-Chrono cap s x now c l
      observe_value-Chrono in_fail =
          unfold observe_value in observe-Chrono cap _ x now (Chrono-drop_last now s.log c) l
      observe_value-Chrono fail_reported = unfold observe_value in Chrono-push cap now s.log x c l
