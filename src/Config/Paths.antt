-- ===== src/Config/Paths.antt =====
-- cmd/dstest/config/config.go: `ModifyFilepath` and `Read`. The working directory and `filepath.Join` are
-- parameters, and so is what viper answers: the configuration, or an error of reading or of decoding.
use dstest.Prelude.{
  ℕ, zero, suc, ◌+◌, ◌<◌, ◌≡◌, ◌∙◌, refl, sym, ap, ltb, List, [], ◌∷◌, map, Outcome, ok, ◌>>=◌, pos,
  at, put, at-lt, put-lt, for_range, for_range-Returns, Returns, Returns-ok, length, length-map,
  length-set, get_or, get_or-set_self, get_or-set_ne, get_or_ext, if◌then◌else◌, arith, ℕ_discrete,
}
use dstest.Prelude.Text.{Text}
use dstest.Config.{Config}

module _ (join : Text → Text → Text) (wd : Text) where
  -- An empty path stays empty.
  abbrev pub join_some : Text → Text
  join_some path = if ltb 0 (length path) then join wd path else path

  unfoldable pub join_script : ℕ → List Text → Outcome (List Text)
  join_script i scripts = do script ← at scripts (pos i); put scripts (pos i) (join wd script)

  unfoldable pub modify_filepath : {F : Type 0} → Config F → Outcome (Config F)
  modify_filepath config = do
    let process = config.process_config
    scripts ← for_range (length process.client_scripts) 0 join_script process.client_scripts
    ok (record config {
      process_config = record process {
        output_dir = join wd process.output_dir;
        replica_script = join wd process.replica_script;
        clean_script = join_some process.clean_script;
        client_scripts = scripts;
      };
    })

  pub data Reading (F : Type 0) : Type 0 where
    config_read : Config F → Reading F
    not_read : Text → Reading F

  unfoldable pub read : {F : Type 0} → Reading F → Outcome (Reading F)
  read (not_read error) = ok (not_read error)
  read (config_read config) = do modified ← modify_filepath config; ok (config_read modified)

  -- The scripts before an index are joined.
  record Joined (old : List Text) (i : ℕ) (scripts : List Text) : Type 0 where
    count : length scripts ≡ length old
    entries :
        (k : ℕ)
        → k < length old
        → get_or scripts k [] ≡ (if ltb k i then join wd (get_or old k []) else get_or old k [])

  get_or-map :
      (l : List Text) (k : ℕ)
      → k < length l
      → get_or (map (join wd) l) k [] ≡ join wd (get_or l k [])
  get_or-map [] k h = absurd (omega arith)
  get_or-map (x ∷ l) zero h = refl
  get_or-map (x ∷ l) (suc k) h = get_or-map l k (omega arith)

  join_script-Joined :
      (old : List Text) (i : ℕ) (scripts : List Text)
      → i < length old
      → Joined old i scripts
      → Returns (join_script i scripts) (Joined old (i + 1))
  unfolding join_script
  join_script-Joined old i scripts li j =
      let count = j.count in
      let value : get_or scripts i [] ≡ get_or old i [] = j.entries i li ∙ ground arith in
      rw
        (
          at-lt scripts i [] (omega arith),
          put-lt scripts i (join wd (get_or scripts i [])) (omega arith),
        )
        (record {
          count = length-set scripts i _ ∙ count;
          entries = λ k lk. elim (ℕ_discrete i k) [
            | yes e ↦
                rw (← e)
                  (get_or-set_self scripts i _ [] (omega arith) ∙ ap (join wd) value ∙ ground arith)
            | no ne ↦ get_or-set_ne scripts i k _ [] ne ∙ j.entries k lk ∙ ground arith
          ];
        })

  -- `ModifyFilepath` returns: each client script, the output directory and the replica script are joined to the
  -- directory, in place, the script that cleans only unless it is empty, and nothing else changes.
  pub modify_filepath-map :
      {F : Type 0} (config : Config F)
      → modify_filepath config
        ≡ ok (record config {
          process_config = record config.process_config {
            output_dir = join wd config.process_config.output_dir;
            replica_script = join wd config.process_config.replica_script;
            clean_script = join_some config.process_config.clean_script;
            client_scripts = map (join wd) config.process_config.client_scripts;
          };
        })
  unfolding modify_filepath
  modify_filepath-map config =
      let old = config.process_config.client_scripts in
      let (scripts, e, j) =
        Returns-ok (for_range (length old) 0 join_script old) (Joined old (length old)) (
          for_range-Returns (Joined old) join_script (length old) (join_script-Joined old)
            (length old) 0 old (omega arith)
            (record { count = refl; entries = λ k lk. ground arith })) in
      let joined : scripts ≡ map (join wd) old =
        get_or_ext scripts (map (join wd) old) [] (j.count ∙ sym (length-map (join wd) old))
          (λ k lk.
            let count = j.count in
            j.entries k (omega arith)
            ∙ ground (arith, count)
            ∙ sym (get_or-map old k (omega arith))) in
      rw (e, joined) refl
