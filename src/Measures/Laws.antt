-- ===== src/Measures/Laws.antt =====
-- What `write_measure` promises: each tag is followed on its own, and what a hasher reports is stored
-- once and in order.
use modbus_tcplogger.Common.{
  ℕ, ◌≡◌, ◌≢◌, refl, sym, ap, ◌∙◌, inl, inr, Option, some, List, [], ◌∷◌, ◌++◌, map, append_assoc,
  append-nil, arith, ltb, if◌then◌else◌, Bool-cases, length, is_empty,
}
use modbus_tcplogger.Common.Int.{ℤ, eqb_ℤ, eqb_ℤ_iff}
use modbus_tcplogger.Common.Float.{Floats}
use modbus_tcplogger.Hasher.{HashedValue, ValueHasher}
use modbus_tcplogger.Measures.{
  ModbusMeasure, ForFlush, Outcome, committed, failed, unconfirmed, DbMeasureUnit, flush,
  save_value, find, put, save_each, Master, id_of, note, write_one, write_measure,
}

-- Every attempt is either carried out and confirmed, or fails without effect.
abbrev pub Honest : (ℕ → Outcome) → Type 0
Honest outcome = (n : ℕ) → outcome n ≢ unconfirmed

module _ {F : Type 0} where
  pub find-put :
      (id j : ℤ) (h : ValueHasher F) (m : List (ℤ × ValueHasher F))
      → find j (put id h m) ≡ (if eqb_ℤ id j then some h else find j m)
  unfolding find put
  find-put id j h [] = refl
  find-put id j h ((k, g) ∷ m) =
      ground (arith, eqb_ℤ_iff k id, eqb_ℤ_iff id j, eqb_ℤ_iff k j, find-put id j h m)

  -- All that was handed over for saving, as the database and the buffer hold it.
  abbrev pub stored : DbMeasureUnit F → List (ForFlush F)
  stored u = u.rows ++ u.buff

  abbrev pub for_flush : ℤ → HashedValue F → ForFlush F
  for_flush id v = record { id = id; value = v }

  stored-flush :
      (o : Outcome) (u : DbMeasureUnit F) → o ≢ unconfirmed → stored (flush o u).0 ≡ stored u
  unfolding flush
  stored-flush committed u n = elim (Bool-cases (is_empty u.buff)) [
    | inl empty ↦ rw empty
    | inr full ↦ rw full (append-nil (u.rows ++ u.buff))
  ]
  stored-flush failed u n = ground arith
  stored-flush unconfirmed u n = absurd (n refl)

  stored-save_value :
      (outcome : ℕ → Outcome) (u : DbMeasureUnit F) (id : ℤ) (v : HashedValue F)
      → Honest outcome
      → stored (save_value outcome u id v).0 ≡ stored u ++ (for_flush id v ∷ [])
  unfolding save_value
  stored-save_value outcome u id v n =
      let u' : DbMeasureUnit F = record u { buff = u.buff ++ (for_flush id v ∷ []) } in
      elim (Bool-cases (ltb 20 (length u'.buff))) [
        | inl full ↦ rw full (
            stored-flush (outcome u.flushes) u' (n u.flushes)
            ∙ sym (append_assoc u.rows u.buff (for_flush id v ∷ [])))
        | inr room ↦ rw room (sym (append_assoc u.rows u.buff (for_flush id v ∷ [])))
      ]

  stored-save_each :
      (outcome : ℕ → Outcome) (u : DbMeasureUnit F) (id : ℤ) (vs : List (HashedValue F))
      → Honest outcome
      → stored (save_each outcome u id vs) ≡ stored u ++ map (for_flush id) vs
  unfolding save_each
  stored-save_each outcome u id [] n = sym (append-nil (stored u))
  stored-save_each outcome u id (v ∷ vs) n =
      stored-save_each outcome (save_value outcome u id v).0 id vs n
      ∙ ap (λ l. l ++ map (for_flush id) vs) (stored-save_value outcome u id v n)
      ∙ append_assoc (stored u) (for_flush id v ∷ []) (map (for_flush id) vs)

module _ (fl : Floats) where
  open fl use {F}

  -- One tag on its own: its hasher, if it has one, fed with its measures, and what is to be saved.
  pub follow :
      Option (ValueHasher F)
      → List (ModbusMeasure F)
      → Option (ValueHasher F) × List (HashedValue F)
  follow o [] = (o, [])
  follow o (m ∷ ms) =
      let (h, vs) = note fl o m in let (o', ws) = follow (some h) ms in (o', vs ++ ws)

  -- The measures of one tag that are to be logged.
  pub measures_of : ℤ → List (ModbusMeasure F) → List (ModbusMeasure F)
  measures_of id [] = []
  measures_of id (m ∷ ms) =
      let rest = measures_of id ms in
      if m.is_logging then if eqb_ℤ (id_of fl m) id then m ∷ rest else rest else rest

  -- What the hashers hand over for saving, event by event.
  pub handed : List (ℤ × ValueHasher F) → List (ModbusMeasure F) → List (ForFlush F)
  handed hashers [] = []
  handed hashers (m ∷ ms) =
      let id = id_of fl m in
      let (h, vs) = note fl (find id hashers) m in
      let on = map (for_flush id) vs ++ handed (put id h hashers) ms in
      let off = handed hashers ms in if m.is_logging then on else off

  -- If no attempt to write is confirmed wrongly, all that the hashers hand over is stored, once and in
  -- order: after any measures the database and the buffer hold what they held, followed by exactly that.
  pub write_measure-stored :
      (outcome : ℕ → Outcome) (s : Master F) (ms : List (ModbusMeasure F))
      → Honest outcome
      → stored (write_measure fl outcome s ms).db_unit ≡ stored s.db_unit ++ handed s.hashed_map ms
  unfolding write_measure write_one handed
  write_measure-stored outcome s [] n = sym (append-nil (stored s.db_unit))
  write_measure-stored outcome s (m ∷ ms) n = elim (Bool-cases m.is_logging) [
    | inl on ↦
        let id = id_of fl m in
        let r = note fl (find id s.hashed_map) m in
        simp on (
          write_measure-stored outcome
            (record {
              hashed_map = put id r.0 s.hashed_map;
              db_unit = save_each outcome s.db_unit id r.1;
            })
            ms n
          ∙ ap (λ l. l ++ handed (put id r.0 s.hashed_map) ms)
              (stored-save_each outcome s.db_unit id r.1 n)
          ∙ append_assoc (stored s.db_unit) (map (for_flush id) r.1) _)
    | inr off ↦ simp off (write_measure-stored outcome s ms n)
  ]

  -- Each tag is followed on its own: the hasher of a tag after any measures, of whatever tags, is what
  -- its own logged measures make of it.
  pub find-write_measure :
      (outcome : ℕ → Outcome) (s : Master F) (ms : List (ModbusMeasure F)) (id : ℤ)
      → find id (write_measure fl outcome s ms).hashed_map
        ≡ (follow (find id s.hashed_map) (measures_of id ms)).0
  unfolding write_measure write_one follow measures_of
  find-write_measure outcome s [] id = refl
  find-write_measure outcome s (m ∷ ms) id = elim (Bool-cases m.is_logging) [
    | inl on ↦
        let k = id_of fl m in
        let r = note fl (find k s.hashed_map) m in
        let s' : Master F = record {
          hashed_map = put k r.0 s.hashed_map;
          db_unit = save_each outcome s.db_unit k r.1;
        } in
        let ih = find-write_measure outcome s' ms id in
        elim (Bool-cases (eqb_ℤ k id)) [
          | inl own ↦
              let e : k ≡ id = (eqb_ℤ_iff k id).0 own in
              simp (on, own)
                (ih
                  ∙ ap (λ o. (follow o (measures_of id ms)).0)
                      (find-put k id r.0 s.hashed_map
                        ∙ rw own (ap (λ j. some (note fl (find j s.hashed_map) m).0) e)))
          | inr other ↦
              simp (on, other)
                (ih
                  ∙ ap (λ o. (follow o (measures_of id ms)).0)
                      (find-put k id r.0 s.hashed_map ∙ rw other refl))
        ]
    | inr off ↦ simp off (find-write_measure outcome s ms id)
  ]
