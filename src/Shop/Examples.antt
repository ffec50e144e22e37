-- ===== src/Shop/Examples.antt =====
-- Concrete shops for the theorems on drafts.
use groceryclaw.Shop.Once.{confirm_once, confirm_reorder-IsConfirmedFrom}
use groceryclaw.Shop.Created.{confirm_all, confirm-create}
use groceryclaw.Shop.Drafts.{confirm_reorder, already_confirmed, ConfirmStatus}
use groceryclaw.Shop.Confirm.{Each2, IsConfirmedFrom}
use groceryclaw.Shop.{Draft, NewDraft, create_drafts, DraftStatus, make_drafts}
use groceryclaw.Base.{
  ℕ, zero, suc, ◌⊎◌, String, List, [], ◌∷◌, ◌++◌, none, ◌≡◌, refl, arith, str_eq,
}

abbrev milk : NewDraft
milk = record {
  supplier_code = "GV";
  lines = record { sku = "M1"; name = "milk"; unit_name = none; qty = 12; unit_cost_vnd = 30 } ∷ [];
  total_vnd = 360;
}

abbrev eggs : NewDraft
eggs = record { supplier_code = "MW"; lines = []; total_vnd = 100 }

abbrev ids : ℕ → String
ids zero = "d0"
ids (suc n) = "d1"

-- Another tenant's draft, made with the same token.
abbrev others : List Draft
others =
    record {
      id = "x";
      tenant_id = "t2";
      supplier_code = "GV";
      lines = [];
      total_vnd = 5;
      status = DraftStatus.draft;
      token_hash = "h";
      expires_at_ms = 900000;
    }
    ∷ []

abbrev stored : List Draft
stored =
    record {
      id = "a";
      tenant_id = "t1";
      supplier_code = "GV";
      lines = [];
      total_vnd = 5;
      status = DraftStatus.draft;
      token_hash = "h";
      expires_at_ms = 900000;
    }
    ∷ others

confirm-create_example :
    ((confirm_reorder "t1" "h" 2000 2001
        (create_drafts "t1" 1000 ids (milk ∷ eggs ∷ []) "h" 300 others).0).0
      ≡ others ++ confirm_all (make_drafts "t1" ids 0 "h" 301000 (milk ∷ eggs ∷ [])))
    × (((confirm_reorder "t1" "h" 2000 2001
            (create_drafts "t1" 1000 ids (milk ∷ eggs ∷ []) "h" 300 others).0).1.status
          ≡ ConfirmStatus.confirmed)
        × ((confirm_reorder "t1" "h" 2000 2001
              (create_drafts "t1" 1000 ids (milk ∷ eggs ∷ []) "h" 300 others).0).1.confirmed_count
            ≡ 2))
unfolding create_drafts str_eq make_drafts
confirm-create_example =
    confirm-create "t1" "h" 1000 2000 2001 300 ids (milk ∷ eggs ∷ []) others (omega arith)
      (omega arith) (omega arith) (refl, tt) (refl, tt)

confirm_reorder-IsConfirmedFrom_example :
    Each2 (IsConfirmedFrom "t1" "h" 2001) stored (confirm_reorder "t1" "h" 2000 2001 stored).0
    × (((confirm_reorder "t1" "h" 2000 2001 stored).1.status ≡ ConfirmStatus.confirmed)
        ⊎ (((confirm_reorder "t1" "h" 2000 2001 stored).0 ≡ stored)
            × ((confirm_reorder "t1" "h" 2000 2001 stored).1.confirmed_count ≡ 0)))
confirm_reorder-IsConfirmedFrom_example =
    confirm_reorder-IsConfirmedFrom "t1" "h" 2000 2001 stored
      (((λ _. refl), ((λ _. refl), tt)), (((λ _. refl), ((λ _. refl), tt)), tt))

confirm_once_example :
    ((confirm_reorder "t1" "h" 5000 5001 (confirm_reorder "t1" "h" 2000 2001 stored).0).0
      ≡ (confirm_reorder "t1" "h" 2000 2001 stored).0)
    × (((confirm_reorder "t1" "h" 5000 5001 (confirm_reorder "t1" "h" 2000 2001 stored).0).1.status
          ≡ already_confirmed)
        × ((confirm_reorder "t1" "h" 5000 5001
              (confirm_reorder "t1" "h" 2000 2001 stored).0).1.confirmed_count
            ≡ 0))
unfolding confirm_reorder str_eq
confirm_once_example =
    confirm_once "t1" "h" 2000 2001 5000 5001 stored ((λ _. omega arith), ((λ _. omega arith), tt))
      refl
