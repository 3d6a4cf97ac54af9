-- ===== src/Server/Admission/Replied.antt =====
-- The reply of a request, whatever the other handlers do.
use fizzbuzz.Prelude.{ℕ, ◌≡◌, ◌⊎◌, Bool, true, false, List, ◌∷◌, ◌++◌, Bytes, lt_int, ◌+w◌}
use fizzbuzz.Config.{Config}
use fizzbuzz.Sequence.Params.{Params}
use fizzbuzz.Server.{
  Method, StatsStore, Stage, finished, started, checked, over, admitted, streaming, Reply, answer,
  send, body_headers, busy, sequence, check_request,
}
use fizzbuzz.Server.Admission.{Server, Event, advances, run}

-- The reply of a sequence that was sent.
abbrev pub sequence_reply : Params → ℕ → Reply
sequence_reply p size = record { status = 200; headers = body_headers size; body = sequence p }

module _ {S : Type 0} (store : StatsStore S) (cfg : Config) (n : ℕ) (v : Server S) (i : ℕ)
    (method : Method) (raw : Bytes) where
  -- Among the events the handler tested the budget with its size, and that was the outcome.
  abbrev pub Tested : Params → ℕ → Bool → List (ℕ × Event) → Type 0
  Tested p size full es =
      (after : List (ℕ × Event)) × (before : List (ℕ × Event)) × (es
        ≡ after ++ (i, advances) ∷ before)
      × ((run store cfg n v before).stages i ≡ checked p size)
      × (lt_int cfg.max_inflight_bytes ((run store cfg n v before).shared.inflight +w size) ≡ full)

  -- The reply of the check, or of the budget as the handler found it.
  abbrev pub Replied : List (ℕ × Event) → Reply → Type 0
  Replied es reply =
      (check_request cfg method raw ≡ answer reply)
      ⊎ ((p : Params) × (size : ℕ) × (check_request cfg method raw ≡ send p size)
          × (((reply ≡ busy) × Tested p size true es)
              ⊎ ((reply ≡ sequence_reply p size) × Tested p size false es)))

  -- What a stage of the handler says of the events so far.
  abbrev Track : List (ℕ × Event) → Stage → Type 0
  Track es (finished reply) = Replied es reply
  Track es (started m r) = (m ≡ method) × (r ≡ raw)
  Track es (checked p size) = check_request cfg method raw ≡ send p size
  Track es (over size) =
      (p : Params) × (check_request cfg method raw ≡ send p size) × Tested p size true es
  Track es (admitted p size) = (check_request cfg method raw ≡ send p size) × Tested p size false es
  Track es (streaming p size) =
      (check_request cfg method raw ≡ send p size) × Tested p size false es
