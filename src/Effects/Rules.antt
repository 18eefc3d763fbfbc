-- ===== src/Effects/Rules.antt =====
-- Triples: what holds after an action that starts where `P` holds, by how it ends.
use tg_guard_bot.Common.{true, refl, false, Bool, if◌then◌else◌, ◌≡◌}
use tg_guard_bot.Effects.{Result, err, Act, continue, throw, World, pure, ok, ◌>>=◌, Error}

module _ {D A : Type 0} where
  abbrev pub Post : (A → World D → Type 0) → (World D → Type 0) → Result A × World D → Type 0
  Post Q E (ok a, w) = Q a w
  Post Q E (err e, w) = E w

  pub record Triple (P : World D → Type 0) (m : Act D A) (Q : A → World D → Type 0)
      (E : World D → Type 0) : Type 0 where
    pub at : (w : World D) → P w → Post Q E (m w)

  pub Triple-pure :
      (P : World D → Type 0) (Q : A → World D → Type 0) (E : World D → Type 0) (a : A)
      → ((w : World D) → P w → Q a w)
      → Triple P (pure a) Q E
  unfolding pure
  Triple-pure P Q E a h = record { at = h }

  pub Triple-throw :
      (P : World D → Type 0) (Q : A → World D → Type 0) (E : World D → Type 0) (e : Error)
      → ((w : World D) → P w → E w)
      → Triple P (throw e) Q E
  unfolding throw
  Triple-throw P Q E e h = record { at = h }

  pub Triple-if :
      (P : World D → Type 0) (Q : A → World D → Type 0) (E : World D → Type 0) (b : Bool)
      (m n : Act D A)
      → (b ≡ true → Triple P m Q E)
      → (b ≡ false → Triple P n Q E)
      → Triple P (if b then m else n) Q E
  Triple-if P Q E true m n hm hn = hm refl
  Triple-if P Q E false m n hm hn = hn refl

module _ {D A B : Type 0} where
  Post-continue :
      (Q : A → World D → Type 0) (Q' : B → World D → Type 0) (E : World D → Type 0)
      (f : A → Act D B) (r : Result A × World D)
      → Post Q E r
      → ((a : A) → Triple (Q a) (f a) Q' E)
      → Post Q' E (continue r.0 f r.1)
  Post-continue Q Q' E f (ok a, w) h k = (k a).at w h
  Post-continue Q Q' E f (err e, w) h k = h

  pub Triple-bind :
      (P : World D → Type 0) (Q : A → World D → Type 0) (Q' : B → World D → Type 0)
      (E : World D → Type 0) (m : Act D A) (f : A → Act D B)
      → Triple P m Q E
      → ((a : A) → Triple (Q a) (f a) Q' E)
      → Triple P (m >>= f) Q' E
  unfolding ◌>>=◌
  Triple-bind P Q Q' E m f km kf = record {
    at = λ w h. Post-continue Q Q' E f (m w) (km.at w h) kf;
  }
