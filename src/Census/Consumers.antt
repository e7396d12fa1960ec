-- ===== src/Census/Consumers.antt =====
-- The consumer maps of epiphany_executor/census.py.
use epiphany_executor.Prelude.{String, [], ◌∷◌, Dict}

abbrev pub plan_level_consumers : Dict String
plan_level_consumers =
    ("plan_id", "metadata-only (provenance; surfaced in telemetry brief)")
    ∷ ("title", "metadata-only (provenance; surfaced in telemetry brief)")
    ∷ ("source_spec", "S-P5-coverage (requirement-trace closure references the source spec)")
    ∷ (
      "consumers",
      "metadata-only (declares this executor is the intended consumer; dogfood signal)",
    )
    ∷ ("rendering_note", "metadata-only (human render hint)")
    ∷ ("gate_status", "S-P1-gate-defect (INV-17 start gate: verdict/gate)")
    ∷ ("blocking_defects", "S-P1-gate-defect (INV-17: open defects halt before step 1)")
    ∷ ("non_blocking_observations", "S-P5-telemetry (surfaced advisory; does not gate)")
    ∷ ("requirement_preservation", "S-P5-coverage (coverage-closure reconciliation)")
    ∷ (
      "build_order",
      "S-P2-scheduler (authoritative inter-layer sequence) + S-P1-importer (ordering)",
    )
    ∷ ("steps", "S-P1-importer (one step -> one node)")
    ∷ ("structural_faults", "S-P1-gate-defect (INV-17: structural faults inform the halt)")
    ∷ ("refinement_back_edges", "S-P4-review (append-only back-update channel; rule conditions)")
    ∷ ("revisability_note", "metadata-only (records plan-versioning policy)")
    ∷ ("removed_artifact", "metadata-only (records an artifact the plan dropped; provenance)")
    ∷ ("schema_version", "schema-tolerant: S-P1-importer (fail-closed dialect/version gate, §4.5)")
    ∷ (
      "target_profile",
      "schema-tolerant: S-P2-context (selects harness-forge accommodation; default generic)",
    )
    ∷ (
      "harness_forge",
      "schema-tolerant: S-P2-context (provider-hint/harness-first/primitives context + self-clobber guard)",
    )
    ∷ []

abbrev pub step_level_consumers : Dict String
step_level_consumers =
    ("step_id", "S-P1-importer (node id) + S-P3-lifecycle (recovery key)")
    ∷ ("goal", "S-P2-context (look-behind/ahead summary) + S-P2-context (thinking-budget input)")
    ∷ ("actions", "S-P3-effector-fanout (the in-step checklist the effector performs)")
    ∷ ("inputs", "S-P2-context (resolved-input rendering) + S-P2-scheduler (data-flow)")
    ∷ ("outputs", "S-P2-scheduler (write-set / conflict graph) + S-P5-coverage")
    ∷ ("dependencies", "S-P2-scheduler (DAG edges) + S-P1-importer (prereq edges)")
    ∷ ("integration_checks", "S-P3-dod (DoD) + S-P1-gate-defect (status BLOCKING DEFECT)")
    ∷ ("acceptance_criteria", "S-P3-dod (two-class DoD; empty -> BLOCKED, INV-10)")
    ∷ ("traces_to", "S-P5-coverage (requirement-coverage closure)")
    ∷ (
      "traces_requirements",
      "schema-tolerant: S-P5-coverage (schema alias of traces_to; emitter uses traces_to)",
    )
    ∷ ("phase", "schema-tolerant: S-P2-scheduler (coarse layer hint; absent in current emit)")
    ∷ (
      "refinement_back_edges",
      "schema-tolerant: S-P4-review (per-step back-update channel; plan-level in current emit)",
    )
    ∷ ("emit_note", "metadata-only (emitter provenance note; surfaced in telemetry)")
    ∷ (
      "gap_surfaced",
      "S-P1-gate-defect (a surfaced gap is treated like a non-blocking observation)",
    )
    ∷ ("is_gap_marker", "S-P5-coverage (a gap-marker step is excluded from executable coverage)")
    ∷ ("resolved_bindings", "S-P2-context (pre-resolved input bindings feed look-behind)")
    ∷ (
      "target_subsystem",
      "schema-tolerant: S-P2-context (harness/forge subsystem focus + self-clobber target)",
    )
    ∷ (
      "obligation_class",
      "metadata-only (advisory obligation tag; the build-not-just-test gate lives in epiphany-plan coverage_audit)",
    )
    ∷ []
