-- ===== src/Daemon/Fallible/Keeps.antt =====
-- Steps that keep a property of the state, whatever they return.
use vibesurfer.Daemon.Fallible.{Outcome, ok, err, M, go_on, ◌>>=◌}

module _ {S E : Type 0} (P : S → Type 0) where
  abbrev pub Keeps : {A : Type 0} → M S E A → Type 0
  Keeps m = (s : S) → P s → P (m s).1

  go_on-keeps :
      {A B : Type 0} (x : Outcome E A × S) (f : A → M S E B)
      → P x.1
      → ((a : A) → Keeps (f a))
      → P (go_on x f).1
  go_on-keeps (ok a, s) f h k = k a s h
  go_on-keeps (err e, s) f h k = h

  pub bind-Keeps :
      {A B : Type 0} (m : M S E A) (f : A → M S E B)
      → Keeps m
      → ((a : A) → Keeps (f a))
      → Keeps (m >>= f)
  bind-Keeps m f k l s h = go_on-keeps (m s) f (k s h) l

-- What holds of the state if a value was returned.
abbrev pub Then : {S E A : Type 0} → (S → Type 0) → Outcome E A × S → Type 0
Then Q (ok a, s) = Q s
Then Q (err e, s) = Unit

-- What holds before leads to what holds after.
abbrev pub Leads : {S E A : Type 0} → (S → Type 0) → (S → Type 0) → M S E A → Type 0
Leads {S = S} P R m = (s : S) → P s → R (m s).1

module _ {S E A B : Type 0} where
  pub go_on-Then :
      (Q : S → Type 0) (x : Outcome E A × S) (f : A → M S E B)
      → ((a : A) (s : S) → Then Q (f a s))
      → Then Q (go_on x f)
  go_on-Then Q (ok a, s) f h = h a s
  go_on-Then Q (err e, s) f h = tt

  module _ (P R : S → Type 0) where
    go_on-Leads :
        (x : Outcome E A × S) (f : A → M S E B)
        → P x.1
        → ((s : S) → P s → R s)
        → ((a : A) (s : S) → P s → R (f a s).1)
        → R (go_on x f).1
    go_on-Leads (ok a, s) f h weaken k = k a s h
    go_on-Leads (err e, s) f h weaken k = weaken s h

    -- From `P` to `R`, with `P` kept by the first step.
    pub bind-Leads :
        (m : M S E A) (f : A → M S E B)
        → Keeps P m
        → ((s : S) → P s → R s)
        → ((a : A) → Leads P R (f a))
        → Leads P R (m >>= f)
    bind-Leads m f k weaken l s h = go_on-Leads (m s) f (k s h) weaken l

    -- From `P` to `R` by the first step, and `R` kept by the rest.
    pub then-Leads :
        (m : M S E A) (f : A → M S E B)
        → Leads P R m
        → ((a : A) → Keeps R (f a))
        → Leads P R (m >>= f)
    then-Leads m f l k s h = go_on-keeps R (m s) f (l s h) k

  module _ (P Q : S → Type 0) where
    go_on-after :
        (x : Outcome E A × S) (f : A → M S E B)
        → P x.1
        → Then Q x
        → ((a : A) (s : S) → P s → Q s → P (f a s).1)
        → P (go_on x f).1
    go_on-after (ok a, s) f h q k = k a s h q
    go_on-after (err e, s) f h q k = h

    -- The rest runs in a state where `Q` holds too.
    pub bind-after :
        (m : M S E A) (f : A → M S E B)
        → Keeps P m
        → ((s : S) → P s → Then Q (m s))
        → ((a : A) (s : S) → P s → Q s → P (f a s).1)
        → Keeps P (m >>= f)
    bind-after m f k q l s h = go_on-after (m s) f (k s h) (q s h) l
