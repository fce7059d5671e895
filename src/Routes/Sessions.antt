-- ===== src/Routes/Sessions.antt =====
-- The session of a remote node that is known (`updateSession`).
use peerbit.Base.Table.{get, get-put}
use peerbit.Base.{ℕ, max, ◌≡◌, refl, ◌∙◌, not, ◌&&◌, some, ltb, ◌==◌, if◌then◌else◌, if_pos, arith}
use peerbit.Routes.{Routes}
use peerbit.Routes.Add.{or_closed}
use peerbit.Routes.Reach.{update_session, renew, get_session}

module _ {K : Type 0} (dec : Discrete K) where
  -- The session that is known after news of one: a closed session stays closed, news of -1 closes it,
  -- and any other news never makes it older.
  abbrev pub joined : ℕ → ℕ → ℕ
  joined known session = if known == 0 then 0 else if session == 0 then 0 else max known session

  renew_lem :
      (s : Routes K) (remote : K) (known session : ℕ)
      → get dec remote s.remote_info ≡ some known
      → (get dec remote (renew dec (some known) remote session s).0.remote_info
          ≡ some (joined known session))
        × ((renew dec (some known) remote session s).1
            ≡ (not (known == 0) && not (session == 0) && ltb (or_closed known) session))
  unfolding renew or_closed
  renew_lem s remote known session h =
      let e =
        get-put dec remote remote session s.remote_info ∙ if_pos (dec remote remote) refl _ _ in
      (ground arith, ground arith)

  -- `updateSession` of a known remote: its session becomes the later of the two, unless either of them
  -- is closed; the call reports a restart exactly if both are open and the news is later, or is 0 like
  -- what is known.
  pub update_session_lem :
      (s : Routes K) (remote : K) (known session : ℕ)
      → get_session dec s remote ≡ some known
      → (get_session dec (update_session dec remote (some session) s).0 remote
          ≡ some (joined known session))
        × ((update_session dec remote (some session) s).1
            ≡ (not (known == 0) && not (session == 0) && ltb (or_closed known) session))
  unfolding update_session get_session
  update_session_lem s remote known session h =
      rw (h, update_session) (renew_lem s remote known session h)
