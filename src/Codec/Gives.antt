-- ===== src/Codec/Gives.antt =====
-- What holds of every value that a reader of src/session/packet_codec.rs returns, rule by rule.
use dsct.Base.{◌≡◌, refl, subst, Bool, true, false, Option, none, some, if◌then◌else◌}
use dsct.Packet.{Bytes}
use dsct.Codec.Read.{Reader, ◌>>=◌, bind-eq-some, pure, fail, lift}

-- Every value that the reader returns satisfies `P`.
pub record Gives {A : Type 0} (m : Reader A) (P : A → Type 0) : Type 0 where
  pub at : (b : Bytes) (a : A) (rest : Bytes) → m b ≡ some (a, rest) → P a

pub Gives-pure : {A : Type 0} (P : A → Type 0) (a : A) → P a → Gives (pure a) P
Gives-pure P a h = record { at = λ b x rest e. subst P (cc) h }

pub Gives-fail : {A : Type 0} (P : A → Type 0) → Gives fail P
Gives-fail P = record { at = λ b x rest e. absurd (cc) }

pub Gives-bind :
    {A B : Type 0} (P : A → Type 0) (Q : B → Type 0) (m : Reader A) (f : A → Reader B)
    → Gives m P
    → ((a : A) → P a → Gives (f a) Q)
    → Gives (m >>= f) Q
Gives-bind P Q m f gm gf = record {
  at = λ b x rest e.
      let (a, left, found, e') = bind-eq-some m f b e in
      (gf a (gm.at b a left found)).at left x rest e';
}

-- A reading of which nothing needs to be known.
pub Gives-any :
    {A B : Type 0} (Q : B → Type 0) (m : Reader A) (f : A → Reader B)
    → ((a : A) → Gives (f a) Q)
    → Gives (m >>= f) Q
Gives-any Q m f gf = record {
  at = λ b x rest e. let (a, left, found, e') = bind-eq-some m f b e in (gf a).at left x rest e';
}

pub Gives-guard :
    {A : Type 0} (P : A → Type 0) (t : Bool) (a : A)
    → (t ≡ true → P a)
    → Gives (if t then pure a else fail) P
Gives-guard P true a h = Gives-pure P a (h refl)
Gives-guard P false a h = Gives-fail P

pub Gives-if :
    {A : Type 0} (P : A → Type 0) (t : Bool) (m n : Reader A)
    → Gives m P
    → Gives n P
    → Gives (if t then m else n) P
Gives-if P true m n gm gn = gm
Gives-if P false m n gm gn = gn

pub Gives-lift :
    {A : Type 0} (P : A → Type 0) (o : Option A) → ((a : A) → o ≡ some a → P a) → Gives (lift o) P
Gives-lift P none h = record { at = λ b x rest e. absurd (cc) }
Gives-lift P (some a) h = record { at = λ b x rest e. h x (cc) }
