-- ===== src/Daemon/Invariant/Pieces.antt =====
-- The steps that the operations are made of keep the invariant.
use vibesurfer.Prelude.{ℕ, ◌-◌, all, Option-cases, inl, inr}
use vibesurfer.Text.{Text}
use vibesurfer.Table.{get, write, write-IsTable, All-get, All-write}
use vibesurfer.Daemon.Fallible.Keeps.{bind-Keeps, Keeps}
use vibesurfer.Daemon.Fallible.{◌>>=◌}
use vibesurfer.Daemon.Store.{Store, S}
use vibesurfer.Daemon.Store.Actions.{record_action}
use vibesurfer.Daemon.World.{D, SessionState, Sessions, on_store, touch, touch_sessions, touch_page}
use vibesurfer.Daemon.Audit.{
  AuditCtx, Body, lift, note, audit_call, audit_from_ctx, error_of, audit_row,
}
use vibesurfer.Daemon.World.Laws.{touched}
use vibesurfer.Daemon.Audit.Log.{body_end, body_result}
use vibesurfer.Daemon.Lifecycle.Closed.{unless_lost-world}
use vibesurfer.Daemon.Invariant.{IsPage, IsSession, AreValid, IsValid}
use vibesurfer.Daemon.Invariant.Grow.{Growing, Grows-refl, All-IsSession, record_action-Growing}

-- A body of a primitive keeps the invariant.
abbrev pub KeepsIt : {A : Type 0} → Body A → Type 0
KeepsIt body = Keeps (λ s. IsValid s.world) body

pub on_store-Keeps : {A : Type 0} (m : S A) → Growing m → Keeps IsValid (on_store m)
unfolding on_store
on_store-Keeps m grows w (table, all) = (
  (table.0, (grows w.store w.store (Grows-refl w.store)).keeps_keys table.1),
  All-IsSession w.store (m w.store).1 w.sessions (grows w.store w.store (Grows-refl w.store)) all,
)

pub lift-Keeps : {A : Type 0} (m : D A) → Keeps IsValid m → KeepsIt (lift m)
unfolding lift
lift-Keeps m k s h = k s.world h

pub note-Keeps : (f : AuditCtx → AuditCtx) → KeepsIt (note f)
unfolding note
note-Keeps f s h = h

-- A lifted step, and then the rest of a body.
pub after :
    {A B : Type 0} (f : A → Body B) (m : D A)
    → Keeps IsValid m
    → ((a : A) → KeepsIt (f a))
    → KeepsIt (lift m >>= f)
after f m k l = bind-Keeps (λ s. IsValid s.world) (lift m) f (lift-Keeps m k) l

pub after_note :
    {B : Type 0} (f : Unit {0} → Body B) (g : AuditCtx → AuditCtx)
    → ((done : Unit {0}) → KeepsIt (f done))
    → KeepsIt (note g >>= f)
after_note f g l = bind-Keeps (λ s. IsValid s.world) (note g) f (note-Keeps g) l

pub audit_call-Keeps :
    {A : Type 0} (ctx : AuditCtx) (body : Body A)
    → KeepsIt body
    → Keeps IsValid (audit_call ctx body)
unfolding audit_call audit_from_ctx
audit_call-Keeps ctx body k w h =
    let s = body_end ctx body w in
    let row =
      audit_row s.ctx (s.world.instant - w.instant) s.world.epoch
        (error_of (body_result ctx body w)) in
    rw (unless_lost-world (body_result ctx body w) (on_store (record_action row) s.world)) (
      on_store-Keeps (record_action row) (record_action-Growing row) s.world
        (k (record { world = w; ctx = ctx }) h))

-- A write to a session that is there.
pub write-Valid :
    (store : Store) (ss : Sessions) (sid : Text) (s : SessionState)
    → AreValid store ss
    → IsSession store (sid, s)
    → AreValid store (write sid s ss)
write-Valid store ss sid s (table, all) h =
    ((write-IsTable ss sid s table.0, table.1), All-write (IsSession store) ss sid s all h)

touch_page-IsSession :
    (store : Store) (now : ℕ) (sid pid : Text) (s : SessionState)
    → IsSession store (sid, s)
    → IsSession store (sid, touch_page now pid s)
unfolding touch_page
touch_page-IsSession store now sid pid s (row, table, all) = elim (Option-cases (get s.pages pid)) [
  | inl e ↦ rw (touch_page, e) (row, table, all)
  | inr (p, e) ↦
      rw (touch_page, e)
        (
          row,
          write-IsTable s.pages pid (touched now p) table,
          All-write (IsPage store) s.pages pid (touched now p) all
              (All-get (IsPage store) s.pages pid all e),
        )
]

pub touch-Keeps : (sid pid : Text) → Keeps IsValid (touch sid pid)
unfolding touch touch_sessions
touch-Keeps sid pid w h = elim (Option-cases (get w.sessions sid)) [
  | inl e ↦ rw (touch, touch_sessions, e) h
  | inr (s, e) ↦
      rw (touch, touch_sessions, e)
        (write-Valid w.store w.sessions sid (touch_page w.instant pid s) h (
          touch_page-IsSession w.store w.instant sid pid s
            (All-get (IsSession w.store) w.sessions sid h.1 e)))
]
