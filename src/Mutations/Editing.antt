-- ===== src/Mutations/Editing.antt =====
-- How the mutations of drafts fail (api/src/graphql/mutations.rs).
use microticket.Prelude.{ℕ, ◌≤◌, Text, List, ◌≡◌, ◌⊎◌, inl, inr, err}
use microticket.Billing.Keyed.{IsKeyed}
use microticket.Mutations.{Server, AuthInfo, World, Failure, classify, internal}
use microticket.Mutations.Invoices.{add_invoice_items, remove_invoice_items, delete_invoice}
use microticket.Mutations.Logic.{Ends-err}
use microticket.Mutations.Batches.{Quiet}
use microticket.Mutations.Traces.{Reached}
use microticket.Mutations.Adding.{add_invoice_items-Ends}
use microticket.Mutations.Removing.{remove_invoice_items-Ends, delete_invoice-Ends}

-- Rows stand under their own ids, and none of the requests of others creates an invoice under this
-- id. If one of `addInvoiceItems`, `removeInvoiceItems` and `deleteInvoice` ends in an error, the
-- error is an internal one, or nothing was done but the others' requests.
pub edits_fail :
    (s : Server) (caller : AuthInfo) (id : Text) (item_ids : List Text) (w : World) (e : Failure)
    (u : World)
    → IsKeyed w.tables
    → Quiet id w.later
    → (add_invoice_items s caller id item_ids w ≡ (err e, u))
      ⊎ (remove_invoice_items s caller id item_ids w ≡ (err e, u))
      ⊎ (delete_invoice s caller id w ≡ (err e, u))
    → (classify e ≡ internal) ⊎ ((j : ℕ) × (j ≤ 0) × Reached s.handler w j u)
edits_fail s caller id item_ids w e u keyed quiet (inl h) =
    Ends-err _ _ _ e u (add_invoice_items-Ends s caller id w keyed quiet item_ids) h
edits_fail s caller id item_ids w e u keyed quiet (inr (inl h)) =
    Ends-err _ _ _ e u (remove_invoice_items-Ends s caller id w keyed quiet item_ids) h
edits_fail s caller id item_ids w e u keyed quiet (inr (inr h)) =
    Ends-err _ _ _ e u (delete_invoice-Ends s caller id w keyed quiet) h
