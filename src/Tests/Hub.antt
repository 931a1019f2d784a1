-- ===== src/Tests/Hub.antt =====
-- The hub: connection_registry.rs.
use wkp.Base.{
  ℕ, ◌+◌, String, ◌≡◌, refl, Bool, true, false, Option, none, some, List, [], ◌∷◌, arith, ◌==◌,
}
use text.Mathlib.Text.{◌==◌ as str_eq}
use wkp.Registry.Defs.{
  Registry, empty, register, close_device, close_all, sweep_revoked, listen, Received, payload,
}
use wkp.Registry.Stream.{
  CancellableStream, Poll, IoResult, ready, ok, connection_aborted, polls, polls_after_cancel,
}
use wkp.Registry.Sweep.{IsClosed, sweep_revoked_lem}
use wkp.Registry.Listen.{listen-IsClosed, now, later}
use wkp.Registry.System.{All, System, Open, Reach, close_device-Reach, connect, begin, next}

-- Two connections of one device, and one of another.
abbrev two_devices : Registry
two_devices = record {
  connections = ("01", (0, 0) ∷ (1, 1) ∷ []) ∷ ("02", (2, 2) ∷ []) ∷ [];
  next_id = 3;
  fresh = 3;
  cancelled = λ t. false;
}

abbrev revoked_second : String → Bool
revoked_second serial = str_eq serial "02"

sweep_revoked_lem_example : IsClosed "02" two_devices (sweep_revoked revoked_second two_devices)
sweep_revoked_lem_example = sweep_revoked_lem revoked_second two_devices "02" refl

-- Another device's notification comes after a round without one.
abbrev rounds : List ((String → Bool) × Option Received)
rounds = (revoked_second, none) ∷ (revoked_second, some (payload "01")) ∷ []

listen-IsClosed_example : IsClosed "02" two_devices (listen rounds two_devices)
listen-IsClosed_example = listen-IsClosed "02" rounds two_devices (later (now refl))

-- One connection, accepted by the empty registry.
abbrev connected : System
connected = record {
  registry = (register "01" empty).2;
  open_streams = record { guard = (register "01" empty).1; token = (register "01" empty).0 } ∷ [];
}

connected-Reach : Reach connected
connected-Reach = next begin (connect "01" (omega arith))

close_device-Reach_example :
    All
      (λ (c : Open).
        (c.guard.cert_serial ≡ "01"
          → (close_device "01" connected.registry).1.cancelled c.token ≡ true)
        × ((close_all connected.registry).1.cancelled c.token ≡ true))
      connected.open_streams
close_device-Reach_example = close_device-Reach "01" connected-Reach

-- A stream that counts its polls.
abbrev counting : ℕ → ℕ × Poll (IoResult ℕ)
counting n = (n + 1, ready (ok n))

abbrev stream : CancellableStream ℕ
stream = record { inner = 7; token = 0; is_cancelled = false; guard = none }

abbrev first_cancelled : ℕ → Bool
first_cancelled t = t == 0

polls_after_cancel_example :
    polls ((first_cancelled, counting) ∷ ((λ t. false), counting) ∷ []) stream ≡ (
      record stream { is_cancelled = true },
      ready connection_aborted ∷ ready connection_aborted ∷ [],
    )
polls_after_cancel_example =
    polls_after_cancel first_cancelled counting (((λ t. false), counting) ∷ []) stream refl
