-- ===== src/Dispatch/Loads.antt =====
-- load_dump and the connections of the server.
use ubervisor.Common.{
  ℕ, zero, suc, ◌≡◌, refl, arith, true, false, [], ◌∷◌, Option, none, some, Str, ◌∙◌,
}
use ubervisor.Common.Int.{ℤ, pos, negsuc}
use ubervisor.Config.{ChildConfig}
use ubervisor.Json.{JsonC}
use ubervisor.Server.{Server}
use ubervisor.Command.{allocated, child_config_insert}
use ubervisor.Command.Subs.{Ran, state_of}
use ubervisor.Command.Load.{
  DumpFile, load_group, load_instances, load_one, go_on, load_from, load_dump,
}
use ubervisor.Dispatch.Links.{links, links-spawn_from}

links-load_instances :
    (conf : ChildConfig) (name : Str) (n : ℤ) (s : Server)
    → links (state_of (load_instances conf name n s)) ≡ links s
unfolding load_instances load_group child_config_insert allocated
links-load_instances conf name (pos n) s = grind (arith, links-spawn_from)
links-load_instances conf name (negsuc n) s = refl

module _ (lib : JsonC) where
  links-load_one :
      (t : Option lib.Json) (s : Server) → links (state_of (load_one lib t s)) ≡ links s
  unfolding load_one
  links-load_one none s = refl
  links-load_one (some t) s = grind (arith, links-load_instances)

  links-go_on :
      (next : Server → Ran) (r : Ran)
      → ((s : Server) → links (state_of (next s)) ≡ links s)
      → links (state_of (go_on lib next r)) ≡ links (state_of r)
  unfolding go_on
  links-go_on next (Ran.returned true s) nexts = nexts s
  links-go_on next (Ran.returned false s) nexts = refl
  links-go_on next (Ran.exited s) nexts = refl

  links-load_from :
      (obj : lib.Json) (i n : ℕ) (s : Server) → links (state_of (load_from lib obj i n s)) ≡ links s
  unfolding load_from
  links-load_from obj i zero s = refl
  links-load_from obj i (suc n) s =
      links-go_on (load_from lib obj (suc i) n)
        (load_one lib (lib.json_object_array_get_idx obj i) s) (links-load_from obj (suc i) n)
      ∙ links-load_one (lib.json_object_array_get_idx obj i) s

  pub links-load_dump :
      (file : DumpFile) (s : Server) → links (state_of (load_dump lib file s)) ≡ links s
  unfolding load_dump
  links-load_dump DumpFile.absent s = refl
  links-load_dump DumpFile.unreadable s = refl
  links-load_dump (DumpFile.text []) s = refl
  links-load_dump (DumpFile.text (c ∷ x)) s = grind (arith, links-load_from)
