-- ===== src/Table.antt =====
-- `HashMap<String, V>` of the standard library: the entries in the order in which a loop meets them,
-- with one entry for each key.
use vibesurfer.Prelude.{
  Bool, false, not, List, [], ◌∷◌, ◌++◌, Option, none, some, ◌≡◌, refl, sym, ◌∙◌, arith,
  if◌then◌else◌, filterb, All, Bool-cases, inl, inr,
}
use vibesurfer.Text.{Text, text_eq}
use vibesurfer.Text.Laws.{text_eq_iff, text_eq_refl}

module _ {ℓ} {V : Type ℓ} where
  unfoldable pub get : List (Text × V) → Text → Option V
  get [] k = none
  get ((l, v) ∷ t) k = let later = get t k in if text_eq l k then some v else later

  -- `insert`: the value of a key that is there is replaced.
  unfoldable pub put : Text → V → List (Text × V) → List (Text × V)
  put k v [] = (k, v) ∷ []
  put k v ((l, w) ∷ t) = let later = (l, w) ∷ put k v t in if text_eq l k then (l, v) ∷ t else later

  unfoldable pub remove : Text → List (Text × V) → List (Text × V)
  remove k t = filterb (λ e. not (text_eq e.0 k)) t

  -- A write through `get_mut`, if the key is there.
  unfoldable pub write : Text → V → List (Text × V) → List (Text × V)
  write k v [] = []
  write k v ((l, w) ∷ t) =
      let later = (l, w) ∷ write k v t in if text_eq l k then (l, v) ∷ t else later

  abbrev pub IsTable : List (Text × V) → Type ℓ
  IsTable [] = Unit
  IsTable ((k, v) ∷ t) = (get t k ≡ none) × IsTable t

pub text_eq-swap : (s t : Text) → text_eq s t ≡ false → text_eq t s ≡ false
text_eq-swap s t h = elim (Bool-cases (text_eq t s)) [
  | inl e ↦ absurd (let same = (text_eq_iff s t).1 (sym ((text_eq_iff t s).0 e)) in cc)
  | inr e ↦ e
]

module _ {ℓ} {V : Type ℓ} where
  pub get-put : (t : List (Text × V)) (k : Text) (v : V) → get (put k v t) k ≡ some v
  unfolding get put
  get-put [] k v = rw (text_eq_refl k)
  get-put ((l, w) ∷ t) k v = elim (Bool-cases (text_eq l k)) [
    | inl e ↦ rw (e, e)
    | inr e ↦ rw (e, e, get-put t k v)
  ]

  pub get-put_other :
      (t : List (Text × V)) (k l : Text) (v : V) → text_eq k l ≡ false → get (put k v t) l ≡ get t l
  unfolding get put
  get-put_other [] k l v h = rw h
  get-put_other ((m, w) ∷ t) k l v h = elim (Bool-cases (text_eq m k)) [
    | inl e ↦ let differs : text_eq m l ≡ false = rw ((text_eq_iff m k).0 e) h in rw (e, differs)
    | inr e ↦ rw (e, get-put_other t k l v h)
  ]

  pub put-new :
      (t : List (Text × V)) (k : Text) (v : V) → get t k ≡ none → put k v t ≡ t ++ (k, v) ∷ []
  unfolding get put
  put-new [] k v h = refl
  put-new ((l, w) ∷ t) k v h = elim (Bool-cases (text_eq l k)) [
    | inl e ↦ absurd (ground arith)
    | inr e ↦ rw (e, put-new t k v (rw e at h))
  ]

  pub get-write :
      (t : List (Text × V)) (k : Text) (v : V) {old : V}
      → get t k ≡ some old
      → get (write k v t) k ≡ some v
  unfolding get write
  get-write [] k v h = cc
  get-write ((l, w) ∷ t) k v h = elim (Bool-cases (text_eq l k)) [
    | inl e ↦ rw (e, e)
    | inr e ↦ rw (e, e, get-write t k v (rw e at h))
  ]

  pub get-filterb-none :
      (p : Text × V → Bool) (t : List (Text × V)) (k : Text)
      → get t k ≡ none
      → get (filterb p t) k ≡ none
  unfolding get
  get-filterb-none p [] k h = refl
  get-filterb-none p ((l, w) ∷ t) k h = ground (arith, get-filterb-none p t k)

  pub get-write-none :
      (t : List (Text × V)) (k l : Text) (v : V) → get t l ≡ none → get (write k v t) l ≡ none
  unfolding get write
  get-write-none [] k l v h = refl
  get-write-none ((m, w) ∷ t) k l v h = ground (arith, get-write-none t k l v)

  pub get-write_other :
      (t : List (Text × V)) (k l : Text) (v : V)
      → text_eq k l ≡ false
      → get (write k v t) l ≡ get t l
  unfolding get write
  get-write_other [] k l v h = refl
  get-write_other ((m, w) ∷ t) k l v h = elim (Bool-cases (text_eq m k)) [
    | inl e ↦ let differs : text_eq m l ≡ false = rw ((text_eq_iff m k).0 e) h in rw (e, differs)
    | inr e ↦ rw (e, get-write_other t k l v h)
  ]

  pub put-IsTable : (t : List (Text × V)) (k : Text) (v : V) → IsTable t → IsTable (put k v t)
  unfolding get put
  put-IsTable [] k v h = (refl, tt)
  put-IsTable ((l, w) ∷ t) k v h = elim (Bool-cases (text_eq l k)) [
    | inl e ↦ rw e h
    | inr e ↦ rw e (get-put_other t k l v (text_eq-swap l k e) ∙ h.0, put-IsTable t k v h.1)
  ]

  pub write-IsTable : (t : List (Text × V)) (k : Text) (v : V) → IsTable t → IsTable (write k v t)
  unfolding get write
  write-IsTable [] k v h = tt
  write-IsTable ((l, w) ∷ t) k v h = elim (Bool-cases (text_eq l k)) [
    | inl e ↦ rw e h
    | inr e ↦ rw e (get-write-none t k l v h.0, write-IsTable t k v h.1)
  ]

  pub filterb-IsTable :
      (p : Text × V → Bool) (t : List (Text × V)) → IsTable t → IsTable (filterb p t)
  filterb-IsTable p [] h = tt
  filterb-IsTable p ((l, w) ∷ t) h = elim (Bool-cases (p (l, w))) [
    | inl e ↦ rw e (get-filterb-none p t l h.0, filterb-IsTable p t h.1)
    | inr e ↦ rw e (filterb-IsTable p t h.1)
  ]

  pub get-remove : (t : List (Text × V)) (k : Text) → get (remove k t) k ≡ none
  unfolding get remove
  get-remove [] k = refl
  get-remove ((l, v) ∷ t) k = elim (Bool-cases (text_eq l k)) [
    | inl e ↦ rw (e, get-remove t k)
    | inr e ↦ rw (e, e, get-remove t k)
  ]

  pub get-remove_other :
      (t : List (Text × V)) (k l : Text) → text_eq k l ≡ false → get (remove k t) l ≡ get t l
  unfolding get remove
  get-remove_other [] k l h = refl
  get-remove_other ((m, v) ∷ t) k l h = elim (Bool-cases (text_eq m k)) [
    | inl e ↦
        let differs : text_eq m l ≡ false = rw ((text_eq_iff m k).0 e) h in
        rw (e, differs, get-remove_other t k l h)
    | inr e ↦ rw (e, get-remove_other t k l h)
  ]

module _ {ℓ κ} {V : Type ℓ} (P : Text × V → Type κ) where
  pub All-get : (t : List (Text × V)) (k : Text) {v : V} → All P t → get t k ≡ some v → P (k, v)
  unfolding get
  All-get [] k {v = v} all h = cc
  All-get ((l, w) ∷ t) k {v = v} all h = elim (Bool-cases (text_eq l k)) [
    | inl e ↦ let same : w ≡ v = ground arith in rw (sym ((text_eq_iff l k).0 e), sym same) all.0
    | inr e ↦ All-get t k all.1 (rw e at h)
  ]

  pub All-write :
      (t : List (Text × V)) (k : Text) (v : V) → All P t → P (k, v) → All P (write k v t)
  unfolding write
  All-write [] k v all h = tt
  All-write ((l, w) ∷ t) k v all h = elim (Bool-cases (text_eq l k)) [
    | inl e ↦ rw e (rw ((text_eq_iff l k).0 e) h, all.1)
    | inr e ↦ rw e (all.0, All-write t k v all.1 h)
  ]

  pub All-put : (t : List (Text × V)) (k : Text) (v : V) → All P t → P (k, v) → All P (put k v t)
  unfolding put
  All-put [] k v all h = (h, tt)
  All-put ((l, w) ∷ t) k v all h = elim (Bool-cases (text_eq l k)) [
    | inl e ↦ rw e (rw ((text_eq_iff l k).0 e) h, all.1)
    | inr e ↦ rw e (all.0, All-put t k v all.1 h)
  ]

  pub All-filterb : (p : Text × V → Bool) (t : List (Text × V)) → All P t → All P (filterb p t)
  All-filterb p [] all = tt
  All-filterb p (e ∷ t) all = elim (Bool-cases (p e)) [
    | inl b ↦ rw b (all.0, All-filterb p t all.1)
    | inr b ↦ rw b (All-filterb p t all.1)
  ]
