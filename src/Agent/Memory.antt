-- ===== src/Agent/Memory.antt =====
-- What the catalog remembers of an earlier run (src/sidq/agent/memory.py): `PriorReceipt` and the
-- loop of `recall` over the statuses that were read.
use sidq.Prelude.{String, Bool, true, false, Option, List, [], ◌∷◌}
use sidq.Prelude.Dict.{Dict, insert}
use sidq.Value.{Fields, str, obj}
use sidq.Receipt.State.{ReceiptState, Action, Show, text_of, get, value_or, judge}

pub record PriorReceipt : Type 0 where
  pub urn : String
  pub covers : Bool
  pub reason : String
  pub state : ReceiptState
  pub verdict : Option String
  pub action : Action
  pub worker_id : String

unfoldable pub prior_refused : PriorReceipt → Bool
prior_refused p = elim p.action [ Action.stop ↦ true | _ ↦ false ]

unfoldable pub prior_may_continue : PriorReceipt → Bool
prior_may_continue p = elim p.action [ Action.continue ↦ true | _ ↦ false ]

unfoldable pub prior_of : Show → String → Fields → PriorReceipt
prior_of show urn status =
    let judgment = judge show (obj status) in
    record {
      urn = urn;
      covers = judgment.covers;
      reason = judgment.reason;
      state = judgment.state;
      verdict = judgment.verdict;
      action = judgment.action;
      worker_id = text_of show (value_or (get "worker_id" status) (str ""));
    }

unfoldable pub recall_into : Show → List (String × Fields) → Dict PriorReceipt → Dict PriorReceipt
recall_into show [] prior = prior
recall_into show ((urn, status) ∷ statuses) prior =
    recall_into show statuses (insert urn (prior_of show urn status) prior)

unfoldable pub recall : Show → List (String × Fields) → Dict PriorReceipt
recall show statuses = recall_into show statuses []
