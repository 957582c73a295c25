-- ===== src/SecurityEpoch/Steps.antt =====
-- Splitting on the result of a step of src/platform/security_epoch_maintenance.rs and of what it
-- calls.
use salpa.SignedImage.Installed as Installed
use salpa.Ota.Flash.{Attempt, ConfirmError}
use salpa.SecurityEpoch.Policy.{Plan, PlanError, granted, refused}
use salpa.Base.{◌≡◌, refl, ap}
use salpa.SecurityEpoch.Qualify.{Step, ok, err, Error}

pub step-cases :
    {A B : Type 0} (P : B → Type 0) (r : Step A) {f : Error → B} {g : A → B}
    → ((e : Error) → r ≡ err e → P (f e))
    → ((a : A) → r ≡ ok a → P (g a))
    → P (elim r [ err e ↦ f e | ok a ↦ g a ])
step-cases P (err e) f g = f e refl
step-cases P (ok a) f g = g a refl

abbrev value_of : {A : Type 0} → Step A → A → A
value_of (ok a) other = a
value_of (err e) other = other

pub ok-injective : {A : Type 0} (a b : A) → ok a ≡ ok b → a ≡ b
ok-injective a b e = ap (λ r. value_of r a) e

pub attempt-cases :
    {A B : Type 0} (P : B → Type 0) (r : Attempt A) {f : ConfirmError → B} {g : A → B}
    → ((e : ConfirmError) → r ≡ Attempt.failed e → P (f e))
    → ((a : A) → r ≡ Attempt.done a → P (g a))
    → P (elim r [ Attempt.failed e ↦ f e | Attempt.done a ↦ g a ])
attempt-cases P (Attempt.failed e) f g = f e refl
attempt-cases P (Attempt.done a) f g = g a refl

pub verdict-cases :
    {A B : Type 0} (P : B → Type 0) (r : Installed.Verdict A)
    {f : Installed.InstalledImageError → B} {g : A → B}
    → ((e : Installed.InstalledImageError) → r ≡ Installed.err e → P (f e))
    → ((a : A) → r ≡ Installed.ok a → P (g a))
    → P (elim r [ Installed.err e ↦ f e | Installed.ok a ↦ g a ])
verdict-cases P (Installed.err e) f g = f e refl
verdict-cases P (Installed.ok a) f g = g a refl

pub plan-cases :
    {A B : Type 0} (P : B → Type 0) (r : Plan A) {f : PlanError → B} {g : A → B}
    → ((e : PlanError) → r ≡ refused e → P (f e))
    → ((a : A) → r ≡ granted a → P (g a))
    → P (elim r [ refused e ↦ f e | granted a ↦ g a ])
plan-cases P (refused e) f g = f e refl
plan-cases P (granted a) f g = g a refl
