-- ===== src/Config/Tests.antt =====
-- A group that is put into JSON and taken out again.
use ubervisor.Common.{◌≡◌, refl, [], ◌∷◌, some, codes}
use ubervisor.Common.Int.{pos, to_int}
use ubervisor.Json.Model.{new_object, library, library-Documented}
use ubervisor.Config.{
  ChildConfig, child_config_new, child_config_from_json, to_json, empty, status_running,
}
use ubervisor.Config.RoundTrip.{child_config_from_json-to_json}

abbrev web : ChildConfig
web = record child_config_new {
  cc_command = some (codes "httpd" ∷ codes "-f" ∷ []);
  cc_name = some (codes "web");
  cc_stdout = some (codes "/log/%(NUM)");
  cc_instances = pos 2;
  cc_status = status_running;
  cc_errtime = 49;
  cc_childs = empty ∷ empty ∷ [];
}

child_config_from_json-to_json_example :
    child_config_from_json (library [] new_object) (to_json (library [] new_object) web)
    ≡ some (record web { cc_errtime = 0; cc_childs = [] })
unfolding child_config_new to_int
child_config_from_json-to_json_example =
    child_config_from_json-to_json (library [] new_object) (library-Documented [] new_object) web
      (codes "web") refl refl refl
