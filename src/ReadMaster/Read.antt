-- ===== src/ReadMaster/Read.antt =====
-- `read` always ends.
use modbus_tcplogger.Pool.Unit.{ModbusDeviceUnit}
use modbus_tcplogger.Common.{
  ℕ, ◌^◌, ◌≡◌, refl, ap, ◌∙◌, Bool, true, false, not, ◌||◌, Option, none, some, inl, inr,
  Bool-cases, Option-cases, set, get_elem?, if◌then◌else◌,
}
use modbus_tcplogger.Common.Int.{residue}
use modbus_tcplogger.Common.Float.{Floats}
use modbus_tcplogger.Plugins.{Serde}
use modbus_tcplogger.Pool.{total_steps}
use modbus_tcplogger.ReadMaster.Sweep.{
  Pass, SweepEnd, socket_lost, overrun, cut_off, mismatch, sweep_pool,
}
use modbus_tcplogger.ReadMaster.Retry.{is_cut_off, sweep_pool-Within}
use modbus_tcplogger.ReadMaster.{
  World, ReadMaster, Run, done, panicked, waiting, bump, increase_timeout, end_pass, report,
  read_device, read_found, read_at, read,
}

abbrev pub is_waiting : {A : Type 0} → Run A → Bool
is_waiting (done a) = false
is_waiting panicked = false
is_waiting waiting = true

module _ (fl : Floats) (serde : Serde) (w : World) where
  open fl use {F}

  increase_timeout-ends :
      (i : Option ℕ) (m : ReadMaster F) → is_waiting (increase_timeout w i m) ≡ false
  unfolding increase_timeout
  increase_timeout-ends none m = refl
  increase_timeout-ends (some i) m = elim (Option-cases (bump i m.devices)) [
    | inl out ↦ simp (is_waiting, increase_timeout, out) refl
    | inr (ds, there) ↦ simp (is_waiting, increase_timeout, there) refl
  ]

  end_pass-ends :
      (m : ReadMaster F) (idx : ℕ) (device : ModbusDeviceUnit F) (total : ℕ) (s : Pass F)
      (stop : Option SweepEnd)
      → is_cut_off fl w.reply w.clock stop ≡ false
      → is_waiting (end_pass w m idx device total s stop) ≡ false
  unfolding end_pass
  end_pass-ends m idx device total s none c = elim (Option-cases (w.clock s.ops)) [
    | inl broken ↦
        ap
          (λ o. is_waiting (
            report (record m { lastest_device_index = m.current_devise_index }) idx device total s
              o))
          broken
    | inr (now, told) ↦
        ap
          (λ o. is_waiting (
            report (record m { lastest_device_index = m.current_devise_index }) idx device total s
              o))
          told
  ]
  end_pass-ends m idx device total s (some socket_lost) c = refl
  end_pass-ends m idx device total s (some overrun) c = refl
  end_pass-ends m idx device total s (some cut_off) c = cc
  end_pass-ends m idx device total s (some (mismatch true)) c =
      increase_timeout-ends m.current_devise_index _
  end_pass-ends m idx device total s (some (mismatch false)) c =
      increase_timeout-ends m.lastest_device_index _

  read_device-ends :
      (m : ReadMaster F) (idx : ℕ) (device : ModbusDeviceUnit F)
      → is_waiting (read_device fl serde w m idx device) ≡ false
  unfolding read_device
  read_device-ends m idx device =
      let (pool, s) =
        sweep_pool fl w.reply w.clock (residue (2 ^ 8) device.address) device.timeout
          (residue (2 ^ 64) device.retry_count) device.value_pool m.ops in
      let c =
        (sweep_pool-Within fl w.reply w.clock (residue (2 ^ 8) device.address) device.timeout
          (residue (2 ^ 64) device.retry_count) device.value_pool m.ops).0 in
      let swept = record device { value_pool = pool } in
      end_pass-ends (record m { devices = set m.devices idx swept; ops = s.ops }) idx swept
        (total_steps device.value_pool) s s.stop c

  read_found-ends :
      (m : ReadMaster F) (idx : ℕ) (o : Option (ModbusDeviceUnit F))
      → is_waiting (read_found fl serde w m idx o) ≡ false
  unfolding read_found
  read_found-ends m idx none = refl
  read_found-ends m idx (some device) = elim (Bool-cases (not device.is_active || not m.ctx)) [
    | inl idle ↦
        ap (λ b. is_waiting (if b then done m else read_device fl serde w m idx device)) idle
    | inr busy ↦
        ap (λ b. is_waiting (if b then done m else read_device fl serde w m idx device)) busy
        ∙ read_device-ends m idx device
  ]

  read_at-ends : (m : ReadMaster F) (o : Option ℕ) → is_waiting (read_at fl serde w m o) ≡ false
  unfolding read_at
  read_at-ends m none = refl
  read_at-ends m (some idx) = read_found-ends m idx (get_elem? m.devices idx)

  -- A round of reading is never left waiting, whatever the network answers: the loops over the steps and
  -- their tries come to an end.
  pub read-ends : (m : ReadMaster F) → is_waiting (read fl serde w m) ≡ false
  unfolding read
  read-ends m = read_at-ends m m.current_devise_index
