-- ===== src/Component/Param/Laws.antt =====
-- The two parameters that rewrite field values never panic, for component_param.rs.
use httpsig_rs.Base.{
  String, List, NoPanic, >>=-NoPanic, traverse, traverse-NoPanic, ok_or-NoPanic, map_err-NoPanic,
}
use httpsig_rs.Sfv.{Sfv, parsed, failed, Parsed, Dictionary, SfvList, or_error-NoPanic}
use httpsig_rs.Component.Param.{
  sf_dictionary, sf_list, sf_value, key_dict, handle_params_sf, handle_params_key_into,
}

sf_dictionary-NoPanic : (sfv : Sfv) (p : Parsed Dictionary) → NoPanic (sf_dictionary sfv p)
unfolding sf_dictionary
sf_dictionary-NoPanic sfv (parsed dict) = ok_or-NoPanic _ _
sf_dictionary-NoPanic sfv (failed _) = λ t p. cc

sf_list-NoPanic : (sfv : Sfv) (v : String) (p : Parsed SfvList) → NoPanic (sf_list sfv v p)
unfolding sf_list
sf_list-NoPanic sfv v (parsed list) = ok_or-NoPanic _ _
sf_list-NoPanic sfv v (failed _) = sf_dictionary-NoPanic sfv _

sf_value-NoPanic : (sfv : Sfv) (v : String) → NoPanic (sf_value sfv v)
unfolding sf_value
sf_value-NoPanic sfv v = sf_list-NoPanic sfv v _

pub handle_params_sf-NoPanic : (sfv : Sfv) (vs : List String) → NoPanic (handle_params_sf sfv vs)
unfolding handle_params_sf
handle_params_sf-NoPanic sfv vs =
    >>=-NoPanic _ _
      (map_err-NoPanic _ (traverse (sf_value sfv) vs)
        (traverse-NoPanic (sf_value sfv) vs (sf_value-NoPanic sfv)))
      (λ l t p. cc)

pub handle_params_key_into-NoPanic :
    (sfv : Sfv) (vs : List String) (k : String) → NoPanic (handle_params_key_into sfv vs k)
unfolding handle_params_key_into
handle_params_key_into-NoPanic sfv vs k =
    >>=-NoPanic (traverse (key_dict sfv) vs) _
      (traverse-NoPanic (key_dict sfv) vs (λ v. or_error-NoPanic _ _)) (λ ds. ok_or-NoPanic _ _)
