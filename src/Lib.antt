-- ===== src/Lib.antt =====
-- The verification library of leadkart-go: models of the domain code under internal/, with theorems
-- about them. Paths below are from the repository's root.
--
-- How the parts correspond
--   A Go struct is a record with the source's fields, an enum of strings is a data type, and a method
--   is a function from the receiver to the changed receiver. A method that returns an error before
--   its first write is a function into `Result Err Receiver`, and `after` keeps the receiver on an
--   error; a method that writes and then returns an error returns both. An error is its sentinel: the
--   message text is left out. A pointer that may be nil is an `Option`. Where a string type has a
--   catalogue, a data type has its members and `unknown` for any other text.
--   Base has the shared names: int64 as integers with the wrap-around of two's complement
--   (Base.Int64), strings as lists of code points with `strings.TrimSpace` and `len` (Base.Text), and
--   instants as nanoseconds since Go's zero time (Base.Clock). Strings that are not valid UTF-8 and
--   instants before the zero time are not represented, and `UTC()` does not change an instant. The
--   length of a slice is a natural number.
--   Getters, defensive copies, constructors from database rows and JSON mapping only move fields and
--   are not modelled. `uuid.Parse` of github.com/google/uuid is the parameter `is_uuid`, which says
--   whether a text is parsed; ids are compared as given, without normalising their letters.
--
-- The parts
--   Base.Uuid: the validation of ids, which the domain packages repeat. Base.Decimal: the numbers that
--   `strconv` prints and reads. Base.Replay: the state that a log of events leads to.
--   Common (internal/common): Money (money/money.go), the display of an amount and its parser.
--   Orders (internal/orders/domain): LineItem and LineItem.Totals (quotation.go, and `computeTotals`
--   of order.go), Quotation (quotation/), Order and Order.States (order/). An order is opened from
--   the tip of an approved quotation, and reuses its line items.
--   Inventory (internal/inventory): Batch (domain/batch), StockMovement (domain/stockmovement) and
--   LogStockMovement (app/command/log_stock_movement.go, with `updateOnTx` and `addOnTx` of the
--   repositories in adapters/), the handler that writes a batch and its ledger row in one transaction.
--   Platform (internal/platform): LeadCredit (domain/leadcredit), PlatformLead (domain/platformlead,
--   with pricing.go) and PurchaseLead (app/command/purchase_lead.go, with the repositories in
--   adapters/), the handler that charges a tenant's credits and records the sale of a lead; and
--   TopupLeadCredits and InitialiseLeadCredits (app/command/topup_lead_credits.go and
--   initialise_lead_credits.go), which credit a tenant, and give it its row, by the same repository.
--   Crm (internal/crm/domain/crmlead): Lead (crmlead.go, events.go), with Stages (stage.go,
--   temperature.go), Taxonomy (taxonomy.go) and Profiles (the profile and the payload of a purchase).
--   Dispatch (internal/dispatch/domain/consignmentnote): ConsignmentNote, with Statuses (status.go).
--   Identity (internal/identity): RefreshToken (domain/refreshtoken), the family of a session;
--   Permission (domain/permission), the catalogue; PermissionRequest (domain/permissionrequest),
--   the request for a permission of the catalogue and its decision by a second member; and Person
--   (domain/person) in State, Credentials, EmailChange, Standing, Lockout and Calls, whose security
--   stamps, which the code draws at random, are arguments of the operations.
--   Tasks (internal/tasks/domain/workitem): WorkItem, with Catalogues (state.go, type.go, priority.go),
--   Item (the records and the constructors) and Transitions (the operations).
--   Notifications (internal/notifications/domain/notification): Notification (notification.go,
--   events.go), with Catalogues (the states, and category.go).
--
-- Databases and transactions
--   A database is a record of tables, each a function from its key or a list of rows. A `Storage` says
--   which writes the database accepts; it may refuse any, which stands for constraints and lost
--   connections alike. The writes of a transaction that returns an error are lost. A row lock makes
--   the rest of a transaction one step. Where the code relies on a version column instead, what
--   other transactions commit in between is a function of the database, and the theorems ask that it
--   is fair: it keeps the invariant, and a row with the same version has the same balance.
--   Row-level security is a test of the tenant of a row.
--   The keys of the purchase rows (the id, and the lead with the tenant) are tests of an insert.
--
-- Bounds and fuel
--   The loops are over lists, and the retries of the purchase and the top-up handler are a list of three
--   rounds. Two loops run on fuel: the digits of a number, of which an int64 has at most twenty, and
--   `cut`, the loop of the groupings, whose fuel is the length of the text that each round shortens.
--   int64 arithmetic wraps; the theorems that equate it with exact numbers state the bound below which
--   it does not.
--
-- What is not modelled
--   HTTP ports, middleware, configuration, logging, generated SQL bindings and message delivery are
--   input and output around this code. The other domain packages, among them the
--   rest of crm, orders and identity, are not modelled.
pub mod Base
pub mod Common
pub mod Crm
pub mod Dispatch
pub mod Orders
pub mod Platform
pub mod Tasks
pub mod Identity
pub mod Inventory
pub mod Notifications
