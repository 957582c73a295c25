-- ===== src/UsbUpdate/Session.antt =====
-- The session of an update in src/usb_update.rs, its expiry, and the updater that holds it.
use salpa.Base.{ℕ, ◌-◌, Bool, true, false, ◌||◌, Option, none, some, List, ltb, leb, if◌then◌else◌}
use salpa.UsbUpdate.Protocol.{
  StatusCode, success, session_expired, Phase, idle, erasing, receiving, verifying, failed,
  UpdateBackend, session_idle_timeout_ms, session_max_lifetime_ms,
}

-- `H` is the state of SHA-256. The version's length is that of the list.
pub record Session (H : Type 0) : Type 0 where
  pub started_ms : ℕ
  pub last_progress_ms : ℕ
  pub last_checked_ms : ℕ
  pub id : ℕ
  pub phase : Phase
  pub target_slot : ℕ
  pub active_slot : ℕ
  pub active_sequence : ℕ
  pub activation_entry : ℕ
  pub target_sequence : ℕ
  pub total : ℕ
  pub expected_hash : List ℕ
  pub expected_secure_version : ℕ
  pub expected_version : List ℕ
  pub completed : ℕ
  pub full_hasher : H
  pub signed_hasher : H
  pub failure : StatusCode

pub record UsbUpdater (S H : Type 0) : Type 0 where
  pub backend : S
  pub trusted_key_digest : List ℕ
  pub current_version : List ℕ
  pub current_secure_version : ℕ
  pub next_session_id : ℕ
  pub session : Option (Session H)

unfoldable pub new : {S H : Type 0} → S → List ℕ → List ℕ → ℕ → UsbUpdater S H
new backend trusted_key_digest current_version current_secure_version = record {
  backend = backend;
  trusted_key_digest = trusted_key_digest;
  current_version = current_version;
  current_secure_version = current_secure_version;
  next_session_id = 1;
  session = none;
}

-- What a step on the session answers, and the backend and the session after it.
pub record Outcome (S H : Type 0) : Type 0 where
  pub answer : StatusCode
  pub backend : S
  pub session : Session H

abbrev pub is_live : Phase → Bool
is_live erasing = true
is_live receiving = true
is_live verifying = true
is_live _ = false

abbrev pub is_expired : StatusCode → Bool
is_expired session_expired = true
is_expired _ = false

abbrev pub fail : {H : Type 0} → Session H → StatusCode → Session H
fail session code = record session { phase = failed; failure = code }

-- What ends a session at `now`: a clock that ran backwards, its age, or no progress.
unfoldable pub overdue : {H : Type 0} → Session H → ℕ → Bool
overdue session now =
    ltb now session.last_checked_ms
    || leb session_max_lifetime_ms (now - session.started_ms)
    || leb session_idle_timeout_ms (now - session.last_progress_ms)

-- `Session::expire`
unfoldable pub expire : {H : Type 0} → Session H → ℕ → Bool × Session H
unfolding overdue
expire session now =
    if is_live session.phase
    then (let checked = record session { last_checked_ms = now } in
        if overdue session now then (true, fail checked session_expired) else (false, checked))
    else (is_expired session.failure, session)

module _ {S H : Type 0} (back : UpdateBackend S) where
  -- `if session.expire(self.backend.now_ms()) { return SessionExpired }`, and what follows it.
  unfoldable pub while_live : S → Session H → (S → Session H → Outcome S H) → Outcome S H
  unfolding expire
  while_live b session continue =
      let (b, now) = back.now_ms b in
      let (expired, session) = expire session now in
      if expired
      then record { answer = session_expired; backend = b; session = session }
      else continue b session

  -- `session.progress(self.backend.now_ms())`
  unfoldable pub progress : S → Session H → Outcome S H
  unfolding expire
  progress b session =
      let (b, now) = back.now_ms b in
      let (expired, session) = expire session now in
      if expired
      then record { answer = session_expired; backend = b; session = session }
      else record {
        answer = success;
        backend = b;
        session = record session { last_progress_ms = now };
      }

  unfoldable pub poll : UsbUpdater S H → UsbUpdater S H
  unfolding expire
  poll u = elim u.session [
    | none ↦ u
    | some session ↦
        let (b, now) = back.now_ms u.backend in
        record u { backend = b; session = some (expire session now).1 }
  ]

unfoldable pub current_phase : {S H : Type 0} → UsbUpdater S H → Phase
current_phase u = elim u.session [ none ↦ idle | some session ↦ session.phase ]
