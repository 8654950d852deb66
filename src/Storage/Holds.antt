-- ===== src/Storage/Holds.antt =====
-- What holds of the handler that an operation of irrd/storage/database_handler.py leaves behind.
use irrd.Base.{◌≡◌, refl, subst, Bool, true, false, if◌then◌else◌}
use irrd.Storage.{Result, ok, fault, ◌>>=◌}

module _ {A : Type 0} where
  -- An exception leaves no handler behind.
  abbrev pub Holds : (A → Type 0) → Result A → Type 0
  Holds P (ok a) = P a
  Holds P (fault e) = Unit

  pub Holds-ok : (P : A → Type 0) (m : Result A) (a : A) → Holds P m → m ≡ ok a → P a
  Holds-ok P m a h e = subst (λ r. Holds P r) e h

  pub Holds_mono : (P Q : A → Type 0) (m : Result A) → Holds P m → ((a : A) → P a → Q a) → Holds Q m
  Holds_mono P Q (ok a) h k = k a h
  Holds_mono P Q (fault e) h k = tt

  pub Holds_always : (P : A → Type 0) (m : Result A) → ((a : A) → P a) → Holds P m
  Holds_always P (ok a) h = h a
  Holds_always P (fault e) h = tt

  pub Holds_both :
      (P Q : A → Type 0) (m : Result A) → Holds P m → Holds Q m → Holds (λ a. P a × Q a) m
  Holds_both P Q (ok a) h k = (h, k)
  Holds_both P Q (fault e) h k = tt

  pub Holds-all :
      {K : Type 0} (P : K → A → Type 0) (m : Result A)
      → ((k : K) → Holds (P k) m)
      → Holds (λ a. (k : K) → P k a) m
  Holds-all P (ok a) h = h
  Holds-all P (fault e) h = tt

  pub Holds-if :
      (P : A → Type 0) (b : Bool) (m n : Result A)
      → (b ≡ true → Holds P m)
      → (b ≡ false → Holds P n)
      → Holds P (if b then m else n)
  Holds-if P true m n h k = h refl
  Holds-if P false m n h k = k refl

module _ {A B : Type 0} where
  pub Holds-bind :
      (P : A → Type 0) (Q : B → Type 0) (m : Result A) (f : A → Result B)
      → Holds P m
      → ((a : A) → P a → Holds Q (f a))
      → Holds Q (m >>= f)
  Holds-bind P Q (ok a) f h k = k a h
  Holds-bind P Q (fault e) f h k = tt

  pub Holds-last :
      (Q : B → Type 0) (m : Result A) (f : A → Result B)
      → ((a : A) → Holds Q (f a))
      → Holds Q (m >>= f)
  Holds-last Q (ok a) f k = k a
  Holds-last Q (fault e) f k = tt
