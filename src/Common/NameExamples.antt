-- ===== src/Common/NameExamples.antt =====
-- A name of three words.
use agamin_crm.Prelude.{[], suc, zero, ℕ, ◌∷◌}
use agamin_crm.Common.FullName.{Text}

abbrev keep_few : ℕ → Text → Text
keep_few zero t = []
keep_few (suc n) [] = []
keep_few (suc n) (c ∷ t) = c ∷ keep_few n t

abbrev ada : Text
ada = b'd' ∷ b'a' ∷ 32 ∷ 32 ∷ b'K' ∷ 32 ∷ b'L' ∷ []
