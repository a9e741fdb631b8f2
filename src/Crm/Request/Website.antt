-- ===== src/Crm/Request/Website.antt =====
-- `Request.parseweb`: the domain of a website's address.
use agamin_crm.Prelude.{
  All, Bool-cases, Option, [], arith, if◌then◌else◌, inl, inr, none, refl, some, ℕ, ◌==◌, ◌∷◌, ◌≡◌,
  ◌≢◌,
}
use agamin_crm.Crm.Records.{Text}

-- Whether the text begins with the separator, and what follows it.
strip : Text → Text → Option Text
strip [] text = some text
strip (s ∷ sep) [] = none
strip (s ∷ sep) (c ∷ cs) = let more = strip sep cs in if s == c then more else none

-- The first part of `text.split(sep)`, for a separator that is not empty.
pub before : Text → Text → Text
unfolding strip
before sep [] = []
before sep (c ∷ cs) =
    let more = c ∷ before sep cs in elim (strip sep (c ∷ cs)) [ none ↦ more | some rest ↦ [] ]

-- What follows the first separator, or `none` where there is none.
pub behind : Text → Text → Option Text
unfolding strip
behind sep [] = none
behind sep (c ∷ cs) =
    let more = behind sep cs in elim (strip sep (c ∷ cs)) [ none ↦ more | some rest ↦ some rest ]

-- `text.split(sep)[1]`; `none` is an `IndexError`.
pub second_part : Text → Text → Option Text
unfolding behind before
second_part sep text = elim (behind sep text) [ none ↦ none | some rest ↦ some (before sep rest) ]

abbrev pub www : Text
www = b'w' ∷ b'w' ∷ b'w' ∷ b'.' ∷ []

abbrev pub slash : Text
slash = b'/' ∷ []

abbrev pub slashes : Text
slashes = b'/' ∷ b'/' ∷ []

pub parseweb : Text → Text
unfolding second_part before
parseweb website = before slash (elim (second_part www website) [
  | some rest ↦ rest
  | none ↦ elim (second_part slashes website) [ some rest ↦ rest | none ↦ website ]
])

abbrev pub NoSlash : Text → Type 0
NoSlash = All (λ c. c ≢ b'/')

before_unrolled :
    (c : ℕ) (cs : Text) → before slash (c ∷ cs) ≡ (if b'/' == c then [] else c ∷ before slash cs)
unfolding before strip
before_unrolled c cs = ground arith

before-NoSlash : (text : Text) → NoSlash (before slash text)
before-NoSlash [] = unfold before in tt
before-NoSlash (c ∷ cs) = elim (Bool-cases (b'/' == c)) [
  | inl here ↦ rw (before_unrolled c cs, here) tt
  | inr other ↦ rw (before_unrolled c cs, other) ((λ e. ground arith), before-NoSlash cs)
]

before_all : (text : Text) → NoSlash text → before slash text ≡ text
before_all [] h = unfold before in refl
before_all (c ∷ cs) h = elim (Bool-cases (b'/' == c)) [
  | inl here ↦ absurd (h.0 (ground arith))
  | inr other ↦ rw (before_unrolled c cs, other, before_all cs h.1)
]

-- Without a slash there are not two in a row.
no_slashes : (text : Text) → NoSlash text → behind slashes text ≡ none
unfolding behind strip
no_slashes [] h = refl
no_slashes (c ∷ cs) h = ground (arith, no_slashes cs h.1)

-- The result has no slash; and a website without a slash and without `www.` is its own result.
pub parseweb_lem :
    (website : Text)
    → NoSlash (parseweb website)
      × (NoSlash website → behind www website ≡ none → parseweb website ≡ website)
unfolding parseweb second_part
parseweb_lem website = (
  before-NoSlash (elim (second_part www website) [
    | some rest ↦ rest
    | none ↦ elim (second_part slashes website) [ some rest ↦ rest | none ↦ website ]
  ]),
  λ h w. rw (w, no_slashes website h) (before_all website h),
)
