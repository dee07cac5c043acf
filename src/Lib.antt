-- ===== src/Lib.antt =====
-- sidq, the deterministic checks and decisions behind a DataHub catalog gate.
--
-- Gates turn a catalog or a change into evidence, the policy engine turns evidence into a verdict, a
-- receipt carries the verdict into the catalog, and every later reader judges what the receipt still
-- says. Agents choose where to point the gates under a budget, skip what a receipt covers, and report
-- what they did not reach. The files follow these parts.
--
-- Prelude: shared names, tests on native numbers, lists, texts in Python's order, the stable `sorted`,
--   `dict` in insertion order and `set` of texts.
-- Value: what `json` and `yaml` give (no floats), `==`, `<`, `in` and `len` on such values.
-- Models: src/sidq/models.py.
-- Policy: src/sidq/policy/engine.py. Policy.Condition has `_field_value`, `_matches_condition` and
--   `_matches_rule`; none stands for the exception that `decide` catches. Policy.Engine has `_render`
--   and `PolicyEngine.decide`, its two loops as `consider_all` and `scan` over the record `Tally` of
--   its locals. Policy.Load and Policy.Document are `load_policy` on the parsed document.
--   Policy.Engine.Spec is an independent description of a verdict.
-- Receipt: src/sidq/receipt. Receipt.State is `judge` and its axes; Receipt.Freshness is `_staleness`,
--   `_parse_iso` and `_schema_modified_at`; Receipt.Attestation is `sign` and `attest`; Receipt.Build
--   is `build_receipt` and the stored properties; Receipt.Read is `_single_entity`, `_sidq_values` and
--   `_status_of`. Receipt.Write is `_write_receipt_under_lock`, a chain of the actions of
--   Receipt.Effects on the state of a world; Receipt.Badges reads the tags of an asset,
--   Receipt.Confirm is the readback, in milliseconds, with fuel as in Repair.Apply.Poll, and
--   Receipt.Restore the rollback.
-- Catalog: src/sidq/gates/self_contradiction.py. Catalog.Snapshot has its records, Catalog.Tags reads
--   tags, Catalog.Checks has a module for each group of checks, Catalog.Gate is
--   `SelfContradictionGate.collect` on a supplied snapshot. The search of `_live_bi_consumers` has one
--   more fuel than the catalog has entities; each round visits an entity for the first and only time,
--   so that is enough, as the termination result states.
-- Agent: src/sidq/agent. Agent.Memory is `recall` on statuses that were read; Agent.Auditor is the
--   plan and the examination of one asset; Agent.Run is the loop of `CatalogAuditor.run`, its locals
--   in the record `Progress`. Its fuel is twice the length of the plan: each round takes a target off
--   the queue, and a promotion puts each target back at most once. Agent.Swarm has the tiers and the
--   order of a swarm worker, Agent.Shift its run against a catalog that others write to.
-- Repair: src/sidq/repair. Repair.Closure is `_closure`, with one round of fuel for the start and one
--   for each edge; each round takes a column off the stack, and an edge puts one there at most once.
--   Repair.Proposals makes the proposals, Repair.Simulate applies one to a snapshot, Repair.Prove is
--   `prove` and `verify_applied` over any gate, Repair.Apply the writes as calls on the state of a
--   world, Repair.Apply.Poll the loop of `verify_repairs` on that world's clock, in milliseconds, and
--   Repair.Apply.Refresh the reads after the writes. With one round of fuel more than the timeout has
--   milliseconds, the loop ends.
-- Claims: src/sidq/claims. Claims.Models has `Claim`, `LiveConstraint` and their normal form,
--   Claims.Canonical `normalize_constraint` and `equivalent`, Claims.Compare what reconcile.py tests
--   of two constraints, Claims.Detail its evidence, Claims.Reconcile the reconciliation itself.
-- Gates: src/sidq/gates. Gates.Graph has what a gate asks of the catalog, as calls on the state of a
--   world, and the cache of a run; Gates.Schema, Gates.Governance, Gates.Reality and Gates.Blast are
--   the gates of those names, the last with its paths and its details in child modules.
--
-- Errors are values: none, or a constructor of its own, where the source raises. Parameters stand for
-- what is not the program's own: Ed25519, base64 and `json.dumps` (Receipt.Attestation), `str.format`
-- (Policy.Engine), `str` on a value that is no text, `str.casefold` and the two regular expressions
-- for columns in prose (Catalog), `str.strip`, `str.lower` and `repr` (Gates), the parser of format
-- strings (Policy.Load), what canonical.py reads off the syntax trees of sqlglot (Claims.Canonical),
-- the clock, SHA-256, the calls of the catalog's tools, and the answers of the catalog.
--
-- Not modelled: reading snapshots and lineage from DataHub, the gates on documentation and on stored
-- lineage, how claims are read and checked, assertions, the resolver. Also left out: text rendering,
-- the command line, the MCP server, the bot's transport and the web page, which only move what the
-- modelled parts decide.
pub mod Prelude
pub mod Value
pub mod Models
pub mod Policy
pub mod Receipt
pub mod Catalog
pub mod Agent
pub mod Repair
pub mod Claims
pub mod Gates
