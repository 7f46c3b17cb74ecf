-- ===== src/Licence/Restart.antt =====
-- The key that the loop of copy_check.rs stores, and the next start.
use mathlib.Core.Path.{subst}
use modbus_tcplogger.Common.{
  ℕ, ◌≡◌, ◌⊎◌, inl, inr, refl, Bool, true, false, Option, none, some, List, [], ◌∷◌, All,
}
use modbus_tcplogger.Licence.{
  Outcome, done, panicked, challenge, fits, Round, Activation, licensed, stored, asking, shown,
  file_fits, accepted_input, read_input, after_input, after_file, check_key_and_activate,
}
use modbus_tcplogger.Licence.Text.{trim}
use modbus_tcplogger.Licence.Accept.{trim-accepted}

stored_inv :
    (o : Outcome Bool) (w : Bool) (key k : List ℕ)
    → accepted_input o w key ≡ done (some k)
    → (o ≡ done true) × (k ≡ key)
stored_inv panicked w key k e = cc
stored_inv (done false) w key k e = cc
stored_inv (done true) false key k e = cc
stored_inv (done true) true key k e = (refl, cc)

read_input-fits :
    (id : List ℕ) (w : Bool) (line : Option (List ℕ)) (k : List ℕ)
    → read_input id w line ≡ done (some k)
    → fits id k ≡ done true
read_input-fits id w none k e = cc
read_input-fits id w (some line) k e =
    let (good, eq) = stored_inv (fits id (trim line)) w (trim line) k e in rw eq good

-- Every round meets the same disk.
abbrev pub OnDisk : List ℕ → List Round → Type 0
OnDisk id = All (λ r. r.current_id ≡ id)

shown-stored :
    (code key : List ℕ) (o : Outcome Activation)
    → shown code o ≡ done (stored key)
    → o ≡ done (stored key)
shown-stored code key (done licensed) e = e
shown-stored code key (done (stored k)) e = e
shown-stored code key (done (asking codes)) e = cc
shown-stored code key panicked e = e

after_input-inv :
    (code key : List ℕ) (o : Outcome (Option (List ℕ))) (again : Outcome Activation)
    → after_input code o again ≡ done (stored key)
    → (o ≡ done (some key)) ⊎ (again ≡ done (stored key))
after_input-inv code key panicked again e = cc
after_input-inv code key (done (some k)) again e = inl cc
after_input-inv code key (done none) again e = inr (shown-stored code key again e)

after_file-inv :
    (r : Round) (key : List ℕ) (o : Outcome Bool) (again : Outcome Activation)
    → after_file r o again ≡ done (stored key)
    → (read_input r.current_id r.writable r.user_input ≡ done (some key))
      ⊎ (again ≡ done (stored key))
after_file-inv r key panicked again e = cc
after_file-inv r key (done true) again e = cc
after_file-inv r key (done false) again e =
    after_input-inv (challenge r.current_id) key (read_input r.current_id r.writable r.user_input)
      again e

-- Whatever key the loop stores is one that fits the disk.
stored-fits :
    (id : List ℕ) (rounds : List Round) (key : List ℕ)
    → OnDisk id rounds
    → check_key_and_activate rounds ≡ done (stored key)
    → fits id key ≡ done true
unfolding check_key_and_activate
stored-fits id [] key h e = cc
stored-fits id (r ∷ rounds) key h e =
    elim (after_file-inv r key (file_fits r.current_id r.license_file)
      (check_key_and_activate rounds) e) [
        | inl now ↦
            subst (λ d. fits d key ≡ done true) h.0
              (read_input-fits r.current_id r.writable r.user_input key now)
        | inr later ↦ stored-fits id rounds key h.1 later
      ]

-- Once the loop has stored a key, the next start on the same disk reads it back from the file and
-- is let through at once, without a question.
pub restart_is_licensed :
    (id : List ℕ) (rounds : List Round) (key : List ℕ) (r : Round) (rest : List Round)
    → OnDisk id rounds
    → check_key_and_activate rounds ≡ done (stored key)
    → r.current_id ≡ id
    → r.license_file ≡ some key
    → check_key_and_activate (r ∷ rest) ≡ done licensed
unfolding check_key_and_activate
restart_is_licensed id rounds key r rest h e same file =
    let good = stored-fits id rounds key h e in
    rw (same, file, trim-accepted id key good, good) refl
