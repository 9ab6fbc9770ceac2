-- ===== src/Deploys/Runner/Laws.antt =====
-- What a returned error of the worker says of the deploy (src/integrations/deploys/runner.rs).
use homelab_mcp.Prelude.{
  zero, suc, ℕ, ◌+◌, ◌≡◌, refl, sym, subst, inl, inr, Bool, true, false, not, ◌||◌, Option, none,
  some, List, [], ◌∷◌, arith, Result, ok, err, ok_or, reject_if, ltb, Option-cases, length, take,
  drop,
}
use homelab_mcp.Text.{Str, lit, trim_end, len, strip_prefix, find, contains, is_empty}
use homelab_mcp.Inventory.{Machine}
use homelab_mcp.Inventory.HostKey.{key_field}
use homelab_mcp.Process.{
  success, Ready, run, spawned, End, finished, was_cancelled, timed_out, lost_wait, lost_stream,
}
use homelab_mcp.Deploys
use homelab_mcp.Deploys.{
  DeployError, missing_host_pin, invalid_output, execution_rejected, cancelled,
}
use homelab_mcp.Deploys.Catalog.{FileMetadata}
use homelab_mcp.Deploys.HostPin.{validate_host_pin, is_pin_blob}
use homelab_mcp.Deploys.Normalize.{
  section_names, section_begin, section_finish, bad_value, parse_sections, parse_report,
  system_info, report_begin, report_end,
}
use homelab_mcp.Deploys.Paths.{join}
use homelab_mcp.Deploys.Runner.Honest.{
  is_late, IsHonest, Quiet, Honest, Quiet-bind, Honest-bind, ErrIs, ErrIs-ok_or, ErrIs-reject_if,
  ErrIs-bind, Quiet-lift, Honest-lift, cleanup-Honest, Quiet-fail_if, Quiet-act, Quiet-attempt,
  spawned as has_spawn,
}
use homelab_mcp.Deploys.Runner.RunDir.{
  CreateDir, no_random, created, already_exists, refused, attempts, create_run_dir,
}
use homelab_mcp.Deploys.Runner.Steps.{
  spawned_uv, made_dir, returns, ◌>>◌, ran_keygen, lift, act, attempt, fail_if, wrote_certificate,
  removed_public_key, wrote_known_hosts,
}
use homelab_mcp.Deploys.Runner.Uv.{run_uv, uv_result}
use homelab_mcp.Deploys.Runner.{
  World, Keygen, not_spawned, exits, wait_fails, keygen_cancelled, keygen_timed_out, keygen_end,
  run_keygen, read_bounded, start_uv, make_run_dir, deploy_in, worker, signed, uv_step,
  known_hosts_line,
}

keygen_end-Quiet : (k : Keygen) (key : Str) → Quiet (keygen_end k key)
keygen_end-Quiet not_spawned key = record { at = (refl, refl) }
keygen_end-Quiet (exits status) key =
    Quiet-bind (act (ran_keygen key)) _ (Quiet-act (ran_keygen key) refl)
      (λ _. Quiet-fail_if (not (success status)) Deploys.execution_rejected refl)
keygen_end-Quiet wait_fails key = record { at = (refl, refl) }
keygen_end-Quiet keygen_cancelled key = record { at = (refl, refl) }
keygen_end-Quiet keygen_timed_out key = record { at = (refl, refl) }

run_keygen-Quiet : (w : World) (key : Str) → Quiet (run_keygen w key)
unfolding run_keygen
run_keygen-Quiet w key =
    Quiet-bind (keygen_end w.keygen key) _ (keygen_end-Quiet w.keygen key) (λ _.
      Quiet-fail_if (not w.chmod_key || not w.chmod_public_key) Deploys.execution_rejected refl)

read_bounded-early :
    (m : Option FileMetadata) (text : Option Str) (n : ℕ) → ErrIs false (read_bounded m text n)
unfolding read_bounded
read_bounded-early none text n = refl
read_bounded-early (some m) none n = ground arith
read_bounded-early (some m) (some t) n = ground arith

attempts-early : (n : ℕ) (root : Str) (tries : List CreateDir) → ErrIs false (attempts n root tries)
unfolding attempts
attempts-early zero root tries = refl
attempts-early (suc n) root [] = refl
attempts-early (suc n) root (no_random ∷ tries) = refl
attempts-early (suc n) root (created r ∷ tries) = tt
attempts-early (suc n) root (already_exists r ∷ tries) = attempts-early n root tries
attempts-early (suc n) root (refused r ∷ tries) = refl

make_run_dir-Quiet : (root : Str) (tries : List CreateDir) → Quiet (make_run_dir root tries)
unfolding create_run_dir
make_run_dir-Quiet root tries =
    Quiet-bind (lift (attempts 8 root tries)) _ (Quiet-lift _ (attempts-early 8 root tries))
      (λ run_dir.
        Quiet-bind (act (made_dir run_dir)) _ (Quiet-act (made_dir run_dir) refl)
          (λ _. Quiet-lift (ok run_dir) tt))

validate_host_pin-early :
    (decode : Str → Option (List ℕ)) (pin : Str) → ErrIs false (validate_host_pin decode pin)
unfolding validate_host_pin
validate_host_pin-early decode pin =
    ErrIs-bind false (ok_or missing_host_pin (key_field pin)) _
      (ErrIs-ok_or false missing_host_pin refl (key_field pin))
      (λ encoded.
        ErrIs-bind false (reject_if (ltb 256 (len pin)) missing_host_pin) _
          (ErrIs-reject_if false missing_host_pin refl (ltb 256 (len pin)))
          (λ _.
            ErrIs-bind false (ok_or missing_host_pin (decode encoded)) _
              (ErrIs-ok_or false missing_host_pin refl (decode encoded))
              (λ bytes. ErrIs-reject_if false missing_host_pin refl (not (is_pin_blob bytes)))))

parse_sections-late : (ns : List Str) (text : Str) → ErrIs true (parse_sections ns text)
unfolding parse_sections
parse_sections-late [] text = tt
parse_sections-late (n ∷ ns) text =
    ErrIs-bind true (ok_or invalid_output (strip_prefix (section_begin n) text)) _
      (ErrIs-ok_or true invalid_output refl (strip_prefix (section_begin n) text))
      (λ inner.
        ErrIs-bind true (ok_or invalid_output (find (section_finish n) inner)) _
          (ErrIs-ok_or true invalid_output refl (find (section_finish n) inner))
          (λ i.
            ErrIs-bind true (reject_if (bad_value (take i inner)) invalid_output) _
              (ErrIs-reject_if true invalid_output refl (bad_value (take i inner)))
              (λ _.
                ErrIs-bind true (parse_sections ns (drop (i + length (section_finish n)) inner)) _
                  (parse_sections-late ns (drop (i + length (section_finish n)) inner)) (λ p. tt))))

parse_report-late : (text : Str) → ErrIs true (parse_report text)
unfolding parse_report
parse_report-late text =
    ErrIs-bind true (ok_or invalid_output (find report_begin text)) _
      (ErrIs-ok_or true invalid_output refl (find report_begin text))
      (λ i.
        let tail = drop (i + length report_begin) text in
        ErrIs-bind true (ok_or invalid_output (find report_end tail)) _
          (ErrIs-ok_or true invalid_output refl (find report_end tail))
          (λ j.
            ErrIs-bind true
              (reject_if (contains report_end (drop (j + length report_end) tail)) invalid_output) _
              (ErrIs-reject_if true invalid_output refl
                (contains report_end (drop (j + length report_end) tail)))
              (λ _.
                ErrIs-bind true (parse_sections section_names (take j tail)) _
                  (parse_sections-late section_names (take j tail))
                  (λ p.
                    ErrIs-bind true (reject_if (not (is_empty p.1)) invalid_output) _
                      (ErrIs-reject_if true invalid_output refl (not (is_empty p.1))) (λ _. tt)))))

system_info-late :
    (from_utf8 : List ℕ → Option Str) (out : List ℕ) → ErrIs true (system_info from_utf8 out)
unfolding system_info
system_info-late from_utf8 out =
    ErrIs-bind true (ok_or invalid_output (from_utf8 out)) _
      (ErrIs-ok_or true invalid_output refl (from_utf8 out)) parse_report-late

uv_result-late : (end : End) → ErrIs true (uv_result end)
unfolding uv_result
uv_result-late (finished status out err_out) = ground arith
uv_result-late was_cancelled = refl
uv_result-late timed_out = refl
uv_result-late lost_wait = refl
uv_result-late lost_stream = refl

run_uv-late :
    (polls : List Ready) (r : Result DeployError (List ℕ)) → run_uv polls ≡ some r → ErrIs true r
unfolding run_uv
run_uv-late polls r e = elim (Option-cases (run polls spawned)) [
  | inl running_still ↦ absurd (ground arith)
  | inr ((end, c), ended) ↦
      let same : uv_result end ≡ r = ground arith in subst (ErrIs true) same (uv_result-late end)
]

uv-Honest :
    (spawns pipes : Bool) (o : Option (Result DeployError (List ℕ)))
    → ((r : Result DeployError (List ℕ)) → o ≡ some r → ErrIs true r)
    → Honest (
        attempt spawns spawned_uv execution_rejected
        >> (fail_if (not pipes) Deploys.execution_outcome_unknown
            >> record { step = uv_step o; trace = [] }))
uv-Honest false pipes o h = record { at = refl }
uv-Honest true false o h = record { at = refl }
uv-Honest true true none h = record { at = refl }
uv-Honest true true (some (ok out)) h = record { at = refl }
uv-Honest true true (some (err e)) h = record { at = sym (h (err e) refl) }

start_uv-Honest : (w : World) → Honest (start_uv w)
unfolding start_uv
start_uv-Honest w = uv-Honest w.uv_spawned w.uv_has_pipes (run_uv w.polls) (run_uv-late w.polls)

signed-early :
    (o : Option (Result DeployError Str))
    → ((e : DeployError) → o ≡ some (err e) → is_late e ≡ false)
    → ErrIs false (signed o)
signed-early none h = refl
signed-early (some (ok c)) h = tt
signed-early (some (err e)) h = h e refl

-- The signer's errors are not those of a deploy that was started.
abbrev pub SignerIsEarly : World → Type 0
SignerIsEarly w = (key : Str) (e : DeployError) → w.sign key ≡ some (err e) → is_late e ≡ false

module _ (decode : Str → Option (List ℕ)) (from_utf8 : List ℕ → Option Str) (w : World)
    (signer : SignerIsEarly w) where
  deploy_in-Honest :
      (machine : Machine) (pin run_dir : Str)
      → Honest (deploy_in decode from_utf8 w machine pin run_dir)
  unfolding deploy_in
  deploy_in-Honest machine pin run_dir =
      Honest-bind (run_keygen w (join run_dir (lit "identity"))) _
        (run_keygen-Quiet w (join run_dir (lit "identity")))
        (λ _.
          Honest-bind (lift (read_bounded w.public_key_metadata w.public_key_text 1024)) _
            (Quiet-lift _ (read_bounded-early w.public_key_metadata w.public_key_text 1024))
            (λ key.
              Honest-bind (fail_if w.cancelled_before_sign cancelled) _
                (Quiet-fail_if w.cancelled_before_sign cancelled refl)
                (λ _.
                  Honest-bind (lift (signed (w.sign (trim_end key)))) _
                    (Quiet-lift _ (signed-early (w.sign (trim_end key)) (signer (trim_end key))))
                    (λ certificate.
                      Honest-bind
                        (attempt w.certificate_written
                          (wrote_certificate (join run_dir (lit "identity-cert.pub")) certificate)
                          execution_rejected)
                        _ (Quiet-attempt w.certificate_written _ execution_rejected refl refl)
                        (λ _.
                          Honest-bind
                            (attempt w.public_key_removed
                              (removed_public_key (join run_dir (lit "identity.pub")))
                              execution_rejected)
                            _ (Quiet-attempt w.public_key_removed _ execution_rejected refl refl)
                            (λ _.
                              Honest-bind
                                (attempt w.known_hosts_written
                                  (wrote_known_hosts (join run_dir (lit "known_hosts"))
                                    (known_hosts_line machine pin))
                                  execution_rejected)
                                _
                                (Quiet-attempt w.known_hosts_written _ execution_rejected refl refl)
                                (λ _.
                                  Honest-bind
                                    (fail_if (not w.inventory_serialized) execution_rejected) _
                                    (Quiet-fail_if (not w.inventory_serialized) execution_rejected
                                      refl)
                                    (λ _.
                                      Honest-lift (start_uv w) (system_info from_utf8)
                                        (start_uv-Honest w) (system_info-late from_utf8)))))))))

  worker-Honest :
      (temp_root : Str) (machine : Machine) → Honest (worker decode from_utf8 w temp_root machine)
  unfolding worker
  worker-Honest temp_root machine =
      Honest-bind (fail_if w.cancelled_at_start cancelled) _
        (Quiet-fail_if w.cancelled_at_start cancelled refl)
        (λ _.
          Honest-bind (lift (ok_or missing_host_pin machine.pinned_host_public_key)) _
            (Quiet-lift _ (ErrIs-ok_or false missing_host_pin refl machine.pinned_host_public_key))
            (λ pin.
              Honest-bind (lift (validate_host_pin decode pin)) _
                (Quiet-lift _ (validate_host_pin-early decode pin))
                (λ _.
                  Honest-bind (make_run_dir temp_root w.run_dirs) _
                    (make_run_dir-Quiet temp_root w.run_dirs)
                    (λ run_dir.
                      cleanup-Honest run_dir (deploy_in decode from_utf8 w machine pin run_dir)
                        (deploy_in-Honest machine pin run_dir)))))

-- A worker that returns an error has started `uv` exactly if the error is one of the four unknown
-- outcomes or an unreadable report, provided that the signer's errors are none of these.
pub worker_error-spawned :
    (decode : Str → Option (List ℕ)) (from_utf8 : List ℕ → Option Str) (w : World) (temp_root : Str)
    (machine : Machine) (e : DeployError)
    → SignerIsEarly w
    → (worker decode from_utf8 w temp_root machine).step ≡ returns (err e)
    → has_spawn (worker decode from_utf8 w temp_root machine).trace ≡ is_late e
worker_error-spawned decode from_utf8 w temp_root machine e signer failed =
    subst (λ s. IsHonest s (worker decode from_utf8 w temp_root machine).trace) failed
      (worker-Honest decode from_utf8 w signer temp_root machine).at
