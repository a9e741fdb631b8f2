-- ===== src/Common/TransferExamples.antt =====
-- A user with a deal and a company goes to department 2.
use agamin_crm.Prelude.{List, [], some, ℕ, ◌==◌, ◌∷◌, ◌≡◌}
use agamin_crm.Prelude.Action.{returned}
use agamin_crm.Common.Transfer.{OwnedModel, Rel, NamedRow, Instance, Transferred, user_transfer}
use agamin_crm.Common.Transfer.Moved.{AllMoved}
use agamin_crm.Common.Transfer.Outcomes.{returns, models_fit, user_transfer_lem}

abbrev stages : List NamedRow
stages =
    record { id = 3; name = "request"; department = some 1 }
    ∷ record { id = 4; name = "request"; department = some 2 }
    ∷ []

abbrev types : List NamedRow
types = record { id = 5; name = "reseller"; department = some 1 } ∷ []

abbrev tables : Rel → List NamedRow
tables Rel.stages = stages
tables Rel.client_types = types
tables _ = []

abbrev sale : ℕ → Instance
sale owner = record { owner = some owner; department = some 1; fk = λ a. some 3; m2m = λ a. 8 ∷ [] }

abbrev firm : Instance
firm = record { owner = some 7; department = some 1; fk = λ a. some 5; m2m = λ a. [] }

abbrev before : Transferred
before = record {
  groups = 1 ∷ 20 ∷ [];
  objects = (OwnedModel.company, firm ∷ []) ∷ (OwnedModel.deal, sale 7 ∷ sale 9 ∷ []) ∷ [];
  tags = record { id = 8; name = "hot"; department = some 1 } ∷ [];
}

user_transfer_lem_example :
    (returns (user_transfer (λ g. g == 1) tables 7 2 before).0
      ≡ models_fit 7 2 tables before.objects)
    × ((user_transfer (λ g. g == 1) tables 7 2 before).0 ≡ returned tt
        → AllMoved 7 2 tables before.objects
            (user_transfer (λ g. g == 1) tables 7 2 before).1.objects)
user_transfer_lem_example = user_transfer_lem (λ g. g == 1) tables 7 2 before
