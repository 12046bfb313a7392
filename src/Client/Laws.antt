-- ===== src/Client/Laws.antt =====
-- A client thread gives up at its third error, and good packets in between do not save it.
use mundosvirtuales_terremot.Base.{
  ℕ, ◌+◌, ◌≤◌, ◌<◌, ◌≡◌, refl, ◌⊎◌, inl, inr, Bool, true, false, not, ◌||◌, List, [], ◌∷◌, Option,
  none, some, arith, Bool-cases, if◌then◌else◌,
}
use mundosvirtuales_terremot.Packet.{Packet, is_valid, of_bytes, unpacking}
use mundosvirtuales_terremot.Client.{max_error_comm, Reply, Thread, Turn, handle, check_errors, run}

-- A message that counts as an error: nothing received, or a packet of another version.
abbrev pub is_bad : Option (List ℕ) → Bool
is_bad none = true
is_bad (some bytes) = not (is_valid (unpacking (of_bytes bytes)))

abbrev pub count_bad : List Turn → ℕ
count_bad [] = 0
count_bad (t ∷ ts) = (if is_bad t.message then 1 else 0) + count_bad ts

module _ {ℓ} {S : Type ℓ} (process : S → Packet → Reply S) where
  handle-count_error :
      (t : Thread S) (m : Option (List ℕ))
      → let u = handle process t m in
        (u.stopped ≡ t.stopped)
        × (t.count_error ≤ u.count_error)
        × (u.count_error ≤ t.count_error + 1)
        × (is_bad m ≡ true → u.count_error ≡ t.count_error + 1)
  unfolding handle
  handle-count_error t none = ground arith
  handle-count_error t (some bytes) = ground arith

  -- Below three errors, or stopped at three.
  abbrev pub Within : Thread S → Type 0
  Within t =
      (t.count_error < max_error_comm) ⊎ ((t.count_error ≡ max_error_comm) × (t.stopped ≡ true))

  check_errors-Within : (t : Thread S) → t.count_error ≤ max_error_comm → Within (check_errors t)
  check_errors-Within t h = ground arith

  run-Within : (t : Thread S) (turns : List Turn) → Within t → Within (run process t turns)
  unfolding run
  run-Within t [] w = w
  run-Within t (turn ∷ turns) w = elim (Bool-cases (t.stopped || turn.stop_request)) [
    | inl e ↦ rw e (ground arith)
    | inr e ↦ rw e (
        run-Within (check_errors (handle process t turn.message)) turns (
          check_errors-Within (handle process t turn.message)
            (ground (arith, handle-count_error t turn.message))))
  ]

  -- From fewer than three errors, any passes leave the thread with fewer than three errors, or with
  -- exactly three and stopped.
  pub run-count_error :
      (t : Thread S) (turns : List Turn)
      → t.count_error < max_error_comm
      → Within (run process t turns)
  run-count_error t turns h = run-Within t turns (inl h)

  -- Stopped, or with errors to come that will stop the thread.
  abbrev Doomed : Thread S → List Turn → Type 0
  Doomed t turns =
      (t.stopped ≡ true)
      ⊎ ((t.count_error < max_error_comm) × (max_error_comm ≤ t.count_error + count_bad turns))

  check_errors-Doomed :
      (t u : Thread S) (turn : Turn) (turns : List Turn)
      → (is_bad turn.message ≡ true → u.count_error ≡ t.count_error + 1)
      → t.count_error ≤ u.count_error
      → u.count_error ≤ t.count_error + 1
      → t.count_error < max_error_comm
      → max_error_comm ≤ t.count_error + count_bad (turn ∷ turns)
      → Doomed (check_errors u) turns
  check_errors-Doomed t u turn turns bad lo hi h k = ground arith

  run-Doomed :
      (t : Thread S) (turns : List Turn) → Doomed t turns → (run process t turns).stopped ≡ true
  unfolding run
  run-Doomed t [] (inl e) = e
  run-Doomed t [] (inr (h, k)) = absurd (omega arith)
  run-Doomed t (turn ∷ turns) d = elim (Bool-cases (t.stopped || turn.stop_request)) [
    | inl e ↦ rw e refl
    | inr e ↦
        rw e (
          run-Doomed (check_errors (handle process t turn.message)) turns
            (pending d (ground arith)))
  ]
    where
      facts :
          let u = handle process t turn.message in
          (u.stopped ≡ t.stopped)
          × (t.count_error ≤ u.count_error)
          × (u.count_error ≤ t.count_error + 1)
          × (is_bad turn.message ≡ true → u.count_error ≡ t.count_error + 1)
      facts = handle-count_error t turn.message

      pending :
          Doomed t (turn ∷ turns)
          → t.stopped ≡ false
          → Doomed (check_errors (handle process t turn.message)) turns
      pending (inl e) f = cc
      pending (inr (h, k)) f = check_errors-Doomed t _ turn turns facts.3 facts.1 facts.2 h k

  -- From fewer than three errors, as many failed receives and packets of another version as are
  -- missing to three stop the thread, however many good packets arrive in between.
  pub run_stops :
      (t : Thread S) (turns : List Turn)
      → t.count_error < max_error_comm
      → max_error_comm ≤ t.count_error + count_bad turns
      → (run process t turns).stopped ≡ true
  run_stops t turns h k = run-Doomed t turns (inr (h, k))
