-- ===== src/Daemon/PageState/Kept.antt =====
-- What a snapshot leaves of the page, and the token after it.
use vibesurfer.Prelude.{false, not, ◌&&◌, some, ◌≡◌, refl, arith, Bool-cases, inl, inr}
use vibesurfer.Text.{Text}
use vibesurfer.Protocol.Tree.Nodes.{Forest}
use vibesurfer.Protocol.Envelope.Token.{StateToken}
use vibesurfer.Daemon.PageState.{PageState, compute, apply_snapshot, same_token}
use vibesurfer.Daemon.PageState.Snapshot.{snapshot_same, snapshot_changed}

pub apply_snapshot-token :
    (hash : Text → StateToken) (p : PageState) (t : Forest)
    → (apply_snapshot hash p t).0.0 ≡ compute hash t p.url p.id
apply_snapshot-token hash p t =
    elim (Bool-cases (not p.force_full && same_token p.last_token (compute hash t p.url p.id))) [
      | inl b ↦ rw (snapshot_same hash p t b) refl
      | inr b ↦ rw (snapshot_changed hash p t b) refl
    ]

pub apply_snapshot-handle :
    (hash : Text → StateToken) (p : PageState) (t : Forest)
    → (apply_snapshot hash p t).1.engine_handle ≡ p.engine_handle
apply_snapshot-handle hash p t =
    elim (Bool-cases (not p.force_full && same_token p.last_token (compute hash t p.url p.id))) [
      | inl b ↦ rw (snapshot_same hash p t b) refl
      | inr b ↦ rw (snapshot_changed hash p t b) refl
    ]

pub apply_snapshot-id :
    (hash : Text → StateToken) (p : PageState) (t : Forest) → (apply_snapshot hash p t).1.id ≡ p.id
apply_snapshot-id hash p t =
    elim (Bool-cases (not p.force_full && same_token p.last_token (compute hash t p.url p.id))) [
      | inl b ↦ rw (snapshot_same hash p t b) refl
      | inr b ↦ rw (snapshot_changed hash p t b) refl
    ]

-- A token that is not the page's becomes the page's.
pub apply_snapshot-last_token :
    (hash : Text → StateToken) (p : PageState) (t : Forest)
    → same_token p.last_token (compute hash t p.url p.id) ≡ false
    → (apply_snapshot hash p t).1.last_token ≡ some (compute hash t p.url p.id)
apply_snapshot-last_token hash p t h =
    elim (Bool-cases (not p.force_full && same_token p.last_token (compute hash t p.url p.id))) [
      | inl b ↦ absurd (ground arith)
      | inr b ↦ rw (snapshot_changed hash p t b) refl
    ]
