-- ===== src/Daemon/Reaper/Plan.antt =====
-- What a sweep decides, against the two rules of reaper.rs.
use vibesurfer.Prelude.{
  ℕ, ◌-◌, Bool, not, ◌&&◌, List, [], ◌∷◌, ◌++◌, ◌≡◌, arith, all, map, if◌then◌else◌, leb, filterb,
  Bool-cases, inl, inr, append_assoc, append-nil, max,
}
use vibesurfer.Text.{Text}
use vibesurfer.Daemon.Reaper.{
  ReapConfig, ReapPlan, PageView, SessionView, scan_pages, plan_session, plan_from, plan,
}

-- Untouched for so long.
abbrev pub idle_for : ℕ → ℕ → ℕ → Bool
idle_for duration now touched = leb duration (now - touched)

-- Nothing has addressed the session or one of its pages for the time to live.
abbrev pub is_expired : ℕ → ReapConfig → SessionView → Bool
is_expired now cfg s =
    idle_for cfg.session_ttl now s.touched
    && all (λ p. idle_for cfg.session_ttl now p.touched) s.pages

abbrev pub idle_pages : ℕ → ReapConfig → SessionView → List (Text × Text)
idle_pages now cfg s =
    map (λ p. (s.id, p.id)) (filterb (λ p. p.live && idle_for cfg.page_idle now p.touched) s.pages)

abbrev pub sleepers : ℕ → ReapConfig → List SessionView → List (Text × Text)
sleepers now cfg [] = []
sleepers now cfg (s ∷ ss) = idle_pages now cfg s ++ sleepers now cfg ss

-- The newest touch of a session.
newest : ℕ → List PageView → ℕ
newest at [] = at
newest at (p ∷ ps) = newest (max at p.touched) ps

idle_max :
    (duration now a b : ℕ)
    → idle_for duration now (max a b) ≡ (idle_for duration now a && idle_for duration now b)
idle_max duration now a b = ground arith

idle_newest :
    (duration now at : ℕ) (ps : List PageView)
    → idle_for duration now (newest at ps)
      ≡ (idle_for duration now at && all (λ p. idle_for duration now p.touched) ps)
unfolding newest
idle_newest duration now at [] = ground arith
idle_newest duration now at (p ∷ ps) =
    rw (idle_newest duration now (max at p.touched) ps, idle_max duration now at p.touched)
      (ground arith)

scan_pages-eq :
    (now : ℕ) (cfg : ReapConfig) (s : SessionView) (ps : List PageView) (at : ℕ)
    (found : List (Text × Text))
    → scan_pages now cfg s.id ps (at, found) ≡ (
      newest at ps,
      found
          ++ map
              (λ p. (s.id, p.id))
              (filterb (λ p. p.live && idle_for cfg.page_idle now p.touched) ps),
    )
unfolding scan_pages newest
scan_pages-eq now cfg s [] at found = rw (append-nil found)
scan_pages-eq now cfg s (p ∷ ps) at found =
    elim (Bool-cases (p.live && idle_for cfg.page_idle now p.touched)) [
      | inl e ↦ rw (
        e,
        scan_pages-eq now cfg s ps (max at p.touched) (found ++ (s.id, p.id) ∷ []),
        append_assoc,
      )
      | inr e ↦ rw (e, scan_pages-eq now cfg s ps (max at p.touched) found)
    ]

plan_session-eq :
    (now : ℕ) (cfg : ReapConfig) (s : SessionView) (out : ReapPlan)
    → plan_session now cfg s out ≡ (
        if is_expired now cfg s
        then record out { closed = out.closed ++ s.id ∷ [] }
        else record out { dormant = out.dormant ++ idle_pages now cfg s })
unfolding plan_session
plan_session-eq now cfg s out = rw (
  scan_pages-eq now cfg s s.pages s.touched [],
  idle_newest cfg.session_ttl now s.touched s.pages,
)

plan_from-eq :
    (now : ℕ) (cfg : ReapConfig) (ss : List SessionView) (out : ReapPlan)
    → plan_from now cfg ss out ≡ record {
      dormant = out.dormant ++ sleepers now cfg (filterb (λ s. not (is_expired now cfg s)) ss);
      closed = out.closed ++ map (λ s. s.id) (filterb (is_expired now cfg) ss);
    }
unfolding plan_from
plan_from-eq now cfg [] out = rw (append-nil out.dormant, append-nil out.closed)
plan_from-eq now cfg (s ∷ ss) out = elim (Bool-cases (is_expired now cfg s)) [
  | inl e ↦ rw (
    plan_from-eq now cfg ss (plan_session now cfg s out),
    plan_session-eq now cfg s out,
    e,
    append_assoc out.closed (s.id ∷ []) (map (λ s. s.id) (filterb (is_expired now cfg) ss)),
  )
  | inr e ↦ rw (
    plan_from-eq now cfg ss (plan_session now cfg s out),
    plan_session-eq now cfg s out,
    e,
    append_assoc out.dormant (idle_pages now cfg s)
        (sleepers now cfg (filterb (λ s. not (is_expired now cfg s)) ss)),
  )
]

-- The plan of a sweep closes exactly the sessions of which neither the session nor any page was
-- touched within the time to live, in the order of the table; and it puts to sleep exactly the pages
-- of the other sessions that have an engine page and were not touched within the page's time.
pub plan-eq :
    (ss : List SessionView) (now : ℕ) (cfg : ReapConfig)
    → plan ss now cfg ≡ record {
      dormant = sleepers now cfg (filterb (λ s. not (is_expired now cfg s)) ss);
      closed = map (λ s. s.id) (filterb (is_expired now cfg) ss);
    }
unfolding plan
plan-eq ss now cfg = plan_from-eq now cfg ss (record { dormant = []; closed = [] })
