-- ===== src/Worker/Heartbeat.antt =====
-- `runHeartbeat` (internal/worker/server.go): the rounds of its loop and the offline timer. The times at
-- which a round tries to connect and loses its stream come from outside, as does the end of the context.
pub mod Offline
use opendebrid.Prelude.{
  ℕ, suc, ◌-◌, Bool, true, false, Option, none, some, List, [], ◌∷◌, leb, if◌then◌else◌,
}

-- A round of the loop: no stream is opened, a stream is opened and dies, or the context ends it. Of a stream
-- the times are those of the first look at the clock behind its end and of the second.
pub data Round : Type 0 where
  refused_at : ℕ → Round
  died_at : ℕ → ℕ → Round
  context_done : Round

-- `disconnected_at` is `none` for the zero time; `reconciled` counts the reconciliations started. The worker
-- shuts itself down by `cancel`.
pub record Heart : Type 0 where
  pub disconnected_at : Option ℕ
  pub reconciled : ℕ

pub data Beat : Type 0 where
  beating : Heart → Beat
  shut_down : Beat
  returned : Beat

abbrev pub reconnected : Option ℕ → Heart → Heart
reconnected none h = h
reconnected (some since) h = record { disconnected_at = none; reconciled = suc h.reconciled }

abbrev pub go_on : Beat → (Heart → Beat) → Beat
go_on (beating h) next = next h
go_on shut_down next = shut_down
go_on returned next = returned

module _ (offline_timeout : ℕ) where
  abbrev pub timed_out : ℕ → ℕ → Bool
  timed_out since now = leb offline_timeout (now - since)

  abbrev pub refused_since : Option ℕ → Heart → ℕ → Beat
  refused_since none h now = beating (record h { disconnected_at = some now })
  refused_since (some since) h now = if timed_out since now then shut_down else beating h

  -- The timer starts at the first look where it does not run.
  abbrev pub stream_lost : Option ℕ → Heart → ℕ → ℕ → Beat
  stream_lost none h first second =
      if timed_out first second
      then shut_down
      else beating (record h { disconnected_at = some first })
  stream_lost (some since) h first second = if timed_out since second then shut_down else beating h

  abbrev pub round : Round → Heart → Beat
  round (refused_at now) h = refused_since h.disconnected_at h now
  round (died_at first second) h =
      let h' = reconnected h.disconnected_at h in stream_lost h'.disconnected_at h' first second
  round context_done h = returned

  abbrev pub rounds_from : List Round → Heart → Beat
  rounds_from [] h = beating h
  rounds_from (r ∷ rs) h = go_on (round r h) (rounds_from rs)

  unfoldable pub run_heartbeat : List Round → Beat
  run_heartbeat rs = rounds_from rs (record { disconnected_at = none; reconciled = 0 })
