-- ===== src/Lib.antt =====
-- Project Atreides: the decision logic of a custody and settlement framework, in Python.
--
-- The program is a set of pure components: each takes values (amounts, dates, offsets, profiles)
-- and returns a decision with the evidence behind it. What is modelled reads no clock and no file. The
-- development has one module per component, named for the package it models.
--
-- Common has what Python gives the components: unbounded integers, dictionaries in insertion order,
-- stable sorting, equality tests and results of calls that may raise. An amount is a finite Decimal;
-- all amounts of one model share an exponent, so that they are integers in units of that exponent.
-- Python's default decimal context keeps 28 significant digits. `Common.Decimal` rounds to them, and
-- net settlement (Rails.Cns), which declares larger quantities, rounds where the code does. The
-- other components add and subtract exactly, which is what the code does as long as its results stay
-- within 28 digits: the sums of the ledger, the covers and elections, and the funding projection. A
-- Decimal NaN, on which a comparison raises, is modelled where the code tests for it (the quantities
-- of trades, the reported allocations, the stress reading) and nowhere else. A date is its ordinal
-- and an instant the number of its microseconds.
--
-- Escalation (atreides/escalation/register.py): the register of escalations and acknowledgements.
-- `raise_escalation` and `acknowledge` are functions from a register to a result and the register
-- after the call; `state`, `unacknowledged` and `overdue_at` are the queries. `Invariant`,
-- `History` and `Queries` are about the registers that calls can produce.
--
-- Rails (atreides/rails): `Finality` (finality.py), `Boundary` (boundary.py), `Determination`
-- (determination.py) and `Funding` (funding_state.py), whose `project_funding` is the ladder of
-- checks over a cash position that the committed flows drive; `Queue` is about its search for the
-- instant that funding arrives and `Dispositions` about the answers.
--
-- Rails.Cato (atreides/rails/cato_cash.py, perimeter.py) is the gate that a cash leg passes: `Rails`
-- and `Inputs` are its inputs with their validators, `Checks` the checks of `evaluate` in their
-- order, `Ladder` is `_recommend_rail`, `Decision` the decision's constructor and `Gate` composes
-- them. The funding state of the gate is what `to_gate_input` makes of a projection. A finite stress
-- reading is an integer number of units, of which the parameter `quarter` make 0.25. The kernel's
-- halt test and identifiers are parameters, and `Digest` is the pattern of a digest.
--
-- Rails.Cns (atreides/rails/cns.py): `Profile` is the market profile, `Netting` nets trades into
-- positions by `net_positions` and `Settle` classifies what was reported of one position by
-- `settle_net_position`. `Netting.Sums` and `Netting.Positions`, `Conserve`, `Bounds` and `Reports`
-- are about their results, and `Assessed` about the profiles that can be constructed.
--
-- Deadlines.Calendar (atreides/deadlines/calendar.py): business days, which the settlement of a net
-- position counts. `Calendar.Count` is about the two operations together. Deadlines.Reserve
-- (reserve_deposit.py, over the rules of model.py) is the clock of reserve deposits: it takes the
-- fuel of the calendar's loop and is about what a PASS rests on. Deadlines.CloseOut (rule_204.py) and
-- Deadlines.Acats (acats.py) are the clocks of fails to deliver and of account transfers, likewise.
--
-- Books.Ledger (atreides/books/ledger.py): `construct_line` and `construct_entry` are the validators,
-- `post` appends to the journal, `verify_stock_record` looks for breaks. `Journal` is about posting,
-- `Balance` and `Breaks` about the stock record.
--
-- CorporateActions.Lifecycle (atreides/corporate_actions/lifecycle.py): `refusal_of` decides a
-- request, `make_request` journals it, `rebuild` replays a journal. `Invariant` is about the states
-- that requests reach and `Journal` about replay.
--
-- CorporateActions.Elections (atreides/corporate_actions/election.py): `Records` has the submissions
-- and what is read of the journal, `submit` journals one submission and `Defaults` assigns the
-- event's default option. `Accepted` and `Covered` are about what submissions leave accepted,
-- `Retry` about a repeated one and `Defaults.Exact` about the defaults; `Replay` rebuilds a book.
--
-- Contracts.Quorum (atreides/contracts/quorum.py): the validators of a threshold, an authority, a
-- signature and a ceremony's record. `Signers` is about who stands behind the signatures.
--
-- Agents.Eligibility (atreides/agents/tier2/eligibility.py, with the checks of outputs.py): the five
-- checks of `verify_eligibility`. A datetime has a zone or has none, and comparing the two kinds
-- raises. `Judged` is about the single checks and `Exact` about the operations that pass them all.
--
-- One loop of the code runs on fuel, that of `add_business_days`, which the clocks call: it ends only
-- at a date of a year with no data, and the number of days to such a date is enough. The rounding of
-- `Common.Decimal` takes the number itself for fuel, which more does not change. Every other loop of the
-- modelled code is over a finite list or a span of days and is a structural recursion.
--
-- Not modelled: the texts of rationales and errors (an error is a constructor), version constants,
-- Pydantic's conversion of field values, serialisation, and the packages that the manifest lists as
-- not modelled. The kernel package that supplies provenance, envelopes and canonical bytes is not in
-- the repository: what a component carries of it is a type parameter, and the canonical bytes of an
-- entry are a function that is a parameter, as are Python's `date.year` and `datetime.combine`.
pub mod Agents
pub mod Books
pub mod Common
pub mod Contracts
pub mod CorporateActions
pub mod Deadlines
pub mod Escalation
pub mod Rails
