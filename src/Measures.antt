-- ===== src/Measures.antt =====
-- db/hasher/hash_master.rs and db_measure_unit.rs: how the measures of a device event reach the
-- hashers and, in batches, the database; and how a query is answered. reader/structs/modbus_measure.rs
-- is the measure itself. What the database does with a batch, and what it answers, is not the
-- program's: it enters as the outcome of each flush and as the function `fetch`.
pub mod Laws
mod Tests
use modbus_tcplogger.Common.{
  ℕ, zero, suc, ◌+◌, ◌^◌, Bool, true, false, Option, none, some, List, [], ◌∷◌, ◌++◌, ltb,
  if◌then◌else◌, length, is_empty,
}
use Prim.Native.String.{String}
use modbus_tcplogger.Common.Int.{ℤ, signed, eqb_ℤ}
use modbus_tcplogger.Common.Float.{Floats}
use modbus_tcplogger.Hasher.{HashedValue, ValueHasher, Emitted, new, add}
use modbus_tcplogger.Hasher.Query.{get_hashed}

-- `MAX_PONT_IN_WEEK`
abbrev pub max_pont_in_week : ℕ
max_pont_in_week = 131072

pub record ModbusMeasure (F : Type 0) : Type 0 where
  pub measure_value : F
  pub is_logging : Bool
  pub value_id : ℕ  -- u32
  pub tag : String
  pub measure_time : ℤ

pub record ForFlush (F : Type 0) : Type 0 where
  pub id : ℤ
  pub value : HashedValue F

-- What becomes of one attempt to write the buffer: the rows are stored and the program is told so;
-- nothing is stored; or the rows are stored, and the program takes it for a failure, because the reply
-- to the commit was lost or came too late.
pub data Outcome : Type 0 where
  committed failed unconfirmed : Outcome

-- The buffer, with the rows that the database holds and the attempts still to come.
pub record DbMeasureUnit (F : Type 0) : Type 0 where
  pub buff : List (ForFlush F)
  pub rows : List (ForFlush F)
  pub flushes : ℕ

module _ {F : Type 0} where
  -- `flush`, with what the database makes of it. The `Bool` is `is_ok()`.
  unfoldable pub flush : Outcome → DbMeasureUnit F → DbMeasureUnit F × Bool
  flush committed u =
      if is_empty u.buff
      then (u, true)
      else (record u { buff = []; rows = u.rows ++ u.buff; flushes = suc u.flushes }, true)
  flush failed u =
      if is_empty u.buff then (u, true) else (record u { flushes = suc u.flushes }, false)
  flush unconfirmed u =
      if is_empty u.buff
      then (u, true)
      else (record u { rows = u.rows ++ u.buff; flushes = suc u.flushes }, false)

  -- `save_value`; `outcome n` is what the database makes of the `n`-th attempt.
  unfoldable pub save_value :
      (ℕ → Outcome) → DbMeasureUnit F → ℤ → HashedValue F → DbMeasureUnit F × Bool
  save_value outcome u val_id val =
      let u' = record u { buff = u.buff ++ (record { id = val_id; value = val } ∷ []) } in
      if ltb 20 (length u'.buff) then flush (outcome u'.flushes) u' else (u', true)

  -- `HashMap<i32, ValueHasher>`
  unfoldable pub find : ℤ → List (ℤ × ValueHasher F) → Option (ValueHasher F)
  find id [] = none
  find id ((k, h) ∷ m) = if eqb_ℤ k id then some h else find id m

  unfoldable pub put : ℤ → ValueHasher F → List (ℤ × ValueHasher F) → List (ℤ × ValueHasher F)
  put id h [] = (id, h) ∷ []
  put id h ((k, g) ∷ m) = if eqb_ℤ k id then (k, h) ∷ m else (k, g) ∷ put id h m

  -- `[before, now].into_iter().flatten()`
  abbrev pub in_order : Emitted F → List (HashedValue F)
  in_order (none, none) = []
  in_order (some now, none) = now ∷ []
  in_order (none, some before) = before ∷ []
  in_order (some now, some before) = before ∷ now ∷ []

  -- A failure to save is logged and the loop goes on.
  unfoldable pub save_each :
      (ℕ → Outcome) → DbMeasureUnit F → ℤ → List (HashedValue F) → DbMeasureUnit F
  save_each outcome u id [] = u
  save_each outcome u id (v ∷ vs) = save_each outcome (save_value outcome u id v).0 id vs

-- The state of `measure_master`.
pub record Master (F : Type 0) : Type 0 where
  pub hashed_map : List (ℤ × ValueHasher F)
  pub db_unit : DbMeasureUnit F

module _ (fl : Floats) where
  open fl use {F}

  -- The sample of a measure and the id that it is kept under.
  abbrev pub id_of : ModbusMeasure F → ℤ
  id_of m = signed (2 ^ 31) m.value_id

  -- The hasher after a measure, and what is to be saved.
  unfoldable pub note :
      Option (ValueHasher F) → ModbusMeasure F → ValueHasher F × List (HashedValue F)
  note (some h) m = let (h', e) = add fl h m.measure_value m.measure_time in (h', in_order e)
  note none m = (
    new fl max_pont_in_week m.measure_value m.measure_time,
    record { val = m.measure_value; timestamp = m.measure_time } ∷ [],
  )

  -- One round of the loop of `write_measure`.
  unfoldable pub write_one : (ℕ → Outcome) → Master F → ModbusMeasure F → Master F
  write_one outcome s m =
      let (h, vs) = note (find (id_of m) s.hashed_map) m in
      if m.is_logging
      then record {
        hashed_map = put (id_of m) h s.hashed_map;
        db_unit = save_each outcome s.db_unit (id_of m) vs;
      }
      else s

  unfoldable pub write_measure : (ℕ → Outcome) → Master F → List (ModbusMeasure F) → Master F
  write_measure outcome s [] = s
  write_measure outcome s (m ∷ ms) = write_measure outcome (write_one outcome s m) ms

  pub record MeasureResponse : Type 0 where
    pub id : ℤ
    pub values : List (HashedValue F)
    pub from : ℤ
    pub to : ℤ

  -- The samples of one value: from the ring, or else from the database; `none` is an error there.
  unfoldable pub read_one :
      (ℤ → ℤ → ℤ → Option (List (HashedValue F)))
      → List (ℤ × ValueHasher F)
      → ℤ
      → ℤ
      → ℤ
      → Option (List (HashedValue F))
  read_one fetch hashers from to id = elim (find id hashers) [
    | none ↦ fetch id from to
    | some h ↦ elim (get_hashed fl h from to) [ some found ↦ some found | none ↦ fetch id from to ]
  ]

  unfoldable pub read_measure :
      (ℤ → ℤ → ℤ → Option (List (HashedValue F)))
      → List (ℤ × ValueHasher F)
      → ℤ
      → ℤ
      → List ℤ
      → Option (List MeasureResponse)
  read_measure fetch hashers from to [] = some []
  read_measure fetch hashers from to (id ∷ ids) =
      let rest = read_measure fetch hashers from to ids in
      elim (read_one fetch hashers from to id) [
        | none ↦ none
        | some values ↦ elim rest [
          | none ↦ none
          | some more ↦ some (record { id = id; values = values; from = from; to = to } ∷ more)
        ]
      ]
