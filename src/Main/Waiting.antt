-- ===== src/Main/Waiting.antt =====
-- What holds in each stage of the server of the requests that wait and of the answers, and that each
-- turn of the program keeps it.
use lurk.Stats.Uptime.{store_is_started-on_server_started}
use lurk.Error.{ok}
use lurk.Stats.{store_is_started, new_stats, on_server_started, LurkServerStats}
use lurk.Common.{
  All-pick, All-append, [], ◌∷◌, ap, inr, ◌++◌, ◌∙◌, inl, ◌≢◌, All-map, sym, subst, refl, false,
  true, ◌≡◌, All, ◌⊎◌, Bool, ℕ, List, Option,
}
use lurk.Api.{LurkNodeStatus}
use lurk.Server.Steps.{Machine}
use lurk.Main.{String, visible, Allows, Answer, Pending, Stage, over, serving, starting_up, unbound}
use lurk.Main.Changes.{Change, stays, binds, starts, ends}
use lurk.Main.Replies.{
  Tells, answer_to, IsStart, Unseen, HalfSeen, Seen, Unseen-Tells, HalfSeen-Tells, Seen-Tells,
}

module _ (machine : Machine) (to_string : LurkNodeStatus → Option (List ℕ)) where
  -- A request that waits while the server starts, and while it serves.
  abbrev pub WaitsAtStart : Bool → Pending → Type 0
  WaitsAtStart stored r = Unseen r ⊎ (HalfSeen r × (stored ≡ true))

  abbrev WaitsThen : ℕ → Pending → Type 0
  WaitsThen started r = Unseen r ⊎ (HalfSeen r ⊎ Seen machine started r)

  abbrev AllTell : ℕ → List Answer → Type 0
  AllTell started = All (Tells machine to_string started)

  -- What holds in each stage. Until the server has started, the answers fit every start.
  abbrev pub Holds : Stage → Bool → LurkServerStats → List Pending → List Answer → Type 0
  Holds unbound stored stats pending answers =
      (stored ≡ false)
      × (stats ≡ new_stats)
      × All Unseen pending
      × ((started : ℕ) → AllTell started answers)
  Holds starting_up stored stats pending answers =
      (stats ≡ new_stats)
      × All (WaitsAtStart stored) pending
      × ((started : ℕ) → AllTell started answers)
  Holds serving stored stats pending answers =
      (started : ℕ) × (stored ≡ true)
      × IsStart machine started stats
      × All (WaitsThen started) pending
      × AllTell started answers
  Holds over stored stats pending answers = (started : ℕ) × AllTell started answers

  -- A time at which a server that serves was started.
  abbrev pub IsStartIn : Stage → ℕ → LurkServerStats → Type 0
  IsStartIn serving started stats = IsStart machine started stats
  IsStartIn _ started stats = Unit

  pub start_in :
      (s : Stage) (stored : Bool) (stats : LurkServerStats) (pending : List Pending)
      (answers : List Answer)
      → Holds s stored stats pending answers
      → (started : ℕ) × IsStartIn s started stats × AllTell started answers
  start_in unbound stored stats pending answers (b, e, w, t) = (0, tt, t 0)
  start_in starting_up stored stats pending answers (e, w, t) = (0, tt, t 0)
  start_in serving stored stats pending answers (started, b, e, w, t) = (started, e, t)
  start_in over stored stats pending answers (started, t) = (started, tt, t)

  pub Change-Holds :
      (s s' : Stage) (stats stats' : LurkServerStats) (stored : Bool) (pending : List Pending)
      (answers : List Answer)
      → Change machine s stats s' stats'
      → Allows s stored
      → Holds s stored stats pending answers
      → Holds s' stored stats' pending answers
  Change-Holds _ _ _ _ stored pending answers (stays s stats) a h = h
  Change-Holds _ _ _ _ stored pending answers (binds stats) a (b, e, w, t) =
      (e, All-map Unseen (WaitsAtStart stored) (λ r u. inl u) pending w, t)
  Change-Holds _ _ _ _ stored pending answers (starts stats stats' now st) a (e, w, t) = (
    now,
    a,
    subst (λ x. on_server_started machine.chrono now x ≡ ok stats') e st,
    All-map (WaitsAtStart stored) (WaitsThen now)
        (λ r u. elim u [ inl x ↦ inl x | inr (x, b) ↦ inr (inl x) ]) pending w,
    t now,
  )
  Change-Holds _ _ _ _ stored pending answers (ends s stats stats') a h =
      let (started, e, t) = start_in s stored stats pending answers h in (started, t)

  visible_starts :
      (started : ℕ) (stats : LurkServerStats)
      → IsStart machine started stats
      → IsStart machine started (store_is_started stats)
  visible_starts started stats st =
      st
      ∙ ap ok (sym (store_is_started-on_server_started machine.chrono started 0 new_stats stats st))

  pub ask-Holds :
      (s : Stage) (stored : Bool) (stats : LurkServerStats) (pending : List Pending)
      (answers : List Answer) (now : ℕ) (uri_path : String)
      → s ≢ over
      → Holds s stored stats pending answers
      → Holds s stored stats
          (pending
            ++ record { now = now; uri_path = uri_path; asked = s; seen = visible stored stats }
              ∷ [])
          answers
  ask-Holds unbound true stats pending answers now path up (b, e, w, t) = cc b
  ask-Holds unbound false stats pending answers now path up (b, e, w, t) =
      (b, e, All-append Unseen pending _ w ((e, tt), tt), t)
  ask-Holds starting_up true stats pending answers now path up (e, w, t) = (
    e,
    All-append (WaitsAtStart true) pending _ w (inr ((ap store_is_started e, refl), refl), tt),
    t,
  )
  ask-Holds starting_up false stats pending answers now path up (e, w, t) =
      (e, All-append (WaitsAtStart false) pending _ w (inl (e, tt), tt), t)
  ask-Holds serving false stats pending answers now path up (started, b, st, w, t) = cc b
  ask-Holds serving true stats pending answers now path up (started, b, st, w, t) = (
    started,
    b,
    st,
    All-append (WaitsThen started) pending _ w
        (inr (inr (visible_starts started stats st, refl)), tt),
    t,
  )
  ask-Holds over stored stats pending answers now path up h = absurd (up refl)

  pub answer-Holds :
      (s : Stage) (stored : Bool) (stats : LurkServerStats) (before after : List Pending)
      (answers : List Answer) (r : Pending)
      → s ≢ over
      → Holds s stored stats (before ++ (r ∷ after)) answers
      → Holds s stored stats
          (before ++ after)
          (answers ++ answer_to machine to_string r (visible stored stats) ∷ [])
  answer-Holds unbound stored stats before after answers r up (b, e, w, t) =
      let (u, rest) = All-pick Unseen before after r w in
      (
        b,
        e,
        rest,
        λ started.
            All-append (Tells machine to_string started) answers _ (t started)
              (Unseen-Tells machine to_string started r (visible stored stats) u, tt),
      )
  answer-Holds starting_up stored stats before after answers r up (e, w, t) =
      let (u, rest) = All-pick (WaitsAtStart stored) before after r w in
      (
        e,
        rest,
        λ started. All-append (Tells machine to_string started) answers _ (t started) (
          elim u [
            | inl x ↦ Unseen-Tells machine to_string started r (visible stored stats) x
            | inr (x, b) ↦
                HalfSeen-Tells machine to_string started r (visible stored stats) x
                  (inl (rw (b, e) refl))
          ],
          tt,
        ),
      )
  answer-Holds serving stored stats before after answers r up (started, b, st, w, t) =
      let (u, rest) = All-pick (WaitsThen started) before after r w in
      let view =
        subst (λ c. IsStart machine started (visible c stats)) (sym b)
          (visible_starts started stats st) in
      (
        started,
        b,
        st,
        rest,
        All-append (Tells machine to_string started) answers _ t (
          elim u [
            | inl x ↦ Unseen-Tells machine to_string started r (visible stored stats) x
            | inr (inl x) ↦
                HalfSeen-Tells machine to_string started r (visible stored stats) x (inr view)
            | inr (inr x) ↦ Seen-Tells machine to_string started r (visible stored stats) x view
          ],
          tt,
        ),
      )
  answer-Holds over stored stats before after answers r up h = absurd (up refl)
