-- ===== src/SshToolkit/Pool/Examples.antt =====
-- Calls of the connection pool at the same time.
use newrr.Common.{
  ℕ, suc, ◌*◌, ◌<◌, ◌≡◌, refl, false, [], ◌∷◌, none, some, text, lookup, insert, remove, text_eq,
  arith,
}
use newrr.SshToolkit.Pool.{
  Call, get_ssh_client, delete_ssh_client, System, Step, pick, Reach, start, later, returned, step,
}
use newrr.SshToolkit.Pool.Progress.{Reach-progress}

-- Two requests for one server.
abbrev both_get : ℕ → Call
both_get i = get_ssh_client (text "web")

-- Both have looked before one of them dials.
abbrev both_dial : (s : System) × Reach 2 both_get 6 s
unfolding step lookup insert text_eq
both_dial = (
  _,
  later
      (later
        (later
          (later
            (later (later start (pick 0 none (omega arith) refl)) (pick 1 none (omega arith) refl))
            (pick 0 none (omega arith) refl))
          (pick 1 none (omega arith) refl))
        (pick 0 none (omega arith) refl))
      (pick 1 none (omega arith) refl),
)

Reach-progress_example : ((t : System) × Step 2 both_dial.0 t) × (6 < 8 * 2)
unfolding both_dial
Reach-progress_example = Reach-progress both_dial.1 1 (omega arith) refl (some 7)

abbrev both_connect : (s : System) × Reach 2 both_get 8 s
unfolding step lookup insert text_eq both_dial
both_connect = (
  _,
  later (later both_dial.1 (pick 0 (some 7) (omega arith) refl))
      (pick 1 (some 8) (omega arith) refl),
)

-- Each has a connection of its own, and the pool has lost the first.
two_connections :
    (both_connect.0.place 0 ≡ returned (some 7))
    × (both_connect.0.place 1 ≡ returned (some 8))
    × (both_connect.0.pool.clients ≡ (text "web", 1) ∷ [])
    × (both_connect.0.pool.entries 1 ≡ record { client = some 8; held = false })
unfolding both_connect both_dial
two_connections = (refl, refl, refl, refl)

-- One request, and one to close the connection, after a first that made it.
abbrev third_deletes : ℕ → Call
third_deletes (suc (suc i)) = delete_ssh_client (text "web")
third_deletes _ = get_ssh_client (text "web")

abbrev reads_closed : (s : System) × Reach 3 third_deletes 8 s
unfolding step lookup insert remove text_eq
reads_closed = (
  _,
  later
      (later
        (later
          (later
            (later
              (later
                (later (later start (pick 0 none (omega arith) refl))
                  (pick 0 none (omega arith) refl))
                (pick 0 none (omega arith) refl))
              (pick 0 (some 7) (omega arith) refl))
            (pick 1 none (omega arith) refl))
          (pick 2 none (omega arith) refl))
        (pick 2 none (omega arith) refl))
      (pick 1 none (omega arith) refl),
)

-- The second request returns a connection that is closed already.
closed_connection :
    (reads_closed.0.place 1 ≡ returned (some 7)) × (reads_closed.0.pool.closed ≡ 7 ∷ [])
unfolding reads_closed
closed_connection = (refl, refl)
