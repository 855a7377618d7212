-- ===== src/Kern/Pages/Lists.antt =====
-- A linked list laid out in an array, as `pp_link` runs through `pages` and `env_link` through
-- `envs`, and what a write elsewhere in the array leaves alone.
use mathlib.Core.Path.{subst}
use papers_annotation.Prelude.{ℕ, ◌≡◌, ◌≢◌, sym, Option, none, some, List, [], ◌∷◌}

-- From `p` on the links lead through exactly these entries.
abbrev pub Linked : (ℕ → Option ℕ) → Option ℕ → List ℕ → Type 0
Linked next p [] = p ≡ none
Linked next p (x ∷ l) = (p ≡ some x) × Linked next (next x) l

abbrev pub NotIn : ℕ → List ℕ → Type 0
NotIn x [] = Unit
NotIn x (y ∷ l) = (x ≢ y) × NotIn x l

abbrev pub Distinct : List ℕ → Type 0
Distinct [] = Unit
Distinct (x ∷ l) = NotIn x l × Distinct l

abbrev pub All {ℓ κ} : {A : Type ℓ} → (A → Type κ) → List A → Type κ
All P [] = Unit
All P (x ∷ xs) = P x × All P xs

pub Linked-elsewhere :
    (next next' : ℕ → Option ℕ) (x : ℕ) (p : Option ℕ) (l : List ℕ)
    → ((y : ℕ) → y ≢ x → next' y ≡ next y)
    → NotIn x l
    → Linked next p l
    → Linked next' p l
Linked-elsewhere next next' x p [] same out h = h
Linked-elsewhere next next' x p (y ∷ l) same out h = (
  h.0,
  Linked-elsewhere next next' x (next' y) l same out.1
      (subst (λ q. Linked next q l) (sym (same y (λ e. out.0 (sym e)))) h.1),
)

pub All-elsewhere :
    {A : Type 0} (P : A → Type 0) (f g : ℕ → A) (x : ℕ) (l : List ℕ)
    → ((y : ℕ) → y ≢ x → g y ≡ f y)
    → NotIn x l
    → All (λ y. P (f y)) l
    → All (λ y. P (g y)) l
All-elsewhere P f g x [] same out h = tt
All-elsewhere P f g x (y ∷ l) same out h =
    (subst P (sym (same y (λ e. out.0 (sym e)))) h.0, All-elsewhere P f g x l same out.1 h.1)

pub All-map {ℓ} :
    {A : Type ℓ} (P Q : A → Type 0) (l : List A) → ((a : A) → P a → Q a) → All P l → All Q l
All-map P Q [] f h = tt
All-map P Q (x ∷ l) f h = (f x h.0, All-map P Q l f h.1)

-- An entry that differs in a property from all members is none of them.
pub NotIn-of_All : (P : ℕ → Type 0) (x : ℕ) (l : List ℕ) → ¬ P x → All P l → NotIn x l
NotIn-of_All P x [] not_p h = tt
NotIn-of_All P x (y ∷ l) not_p h =
    ((λ e. not_p (subst P (sym e) h.0)), NotIn-of_All P x l not_p h.1)
