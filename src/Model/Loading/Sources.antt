-- ===== src/Model/Loading/Sources.antt =====
-- casbin/model/model.cpp: loading a model from a file or from a text, and the models made so.
use casbin_cpp.Base.{ℕ, Bool, Option, none, some, Text, Result, ok, err}
use casbin_cpp.Base.Assoc.{Assoc}
use casbin_cpp.Config.{Config, new_config, new_config_from_text}
use casbin_cpp.Model.{Model}
use casbin_cpp.Model.Loading.{Load, load_model_from_config}
use casbin_cpp.Model.Loading.Missing.{new_model}

module _ (regex_remove : Text → Text → Result Text) where
  -- An exception of the configuration leaves the model.
  abbrev load_from : ℕ → Result Config → Model → Load
  unfolding load_model_from_config
  load_from n (ok cfg) model = load_model_from_config regex_remove n cfg model
  load_from n (err e) model = some (err e, model)

  -- `LoadModel`, with the files and the state of the mutex of the configurations; `none` when it
  -- waits for the mutex.
  unfoldable pub load_model : ℕ → Assoc Text → Text → Bool → Model → Option (Load × Bool)
  unfolding load_from new_config
  load_model n disk path locked model = elim (new_config disk path locked) [
    | none ↦ none
    | some (cfg, held) ↦ some (load_from n cfg model, held)
  ]

  unfoldable pub load_model_from_text : ℕ → Text → Model → Load
  unfolding load_from new_config_from_text
  load_model_from_text n text model = load_from n (new_config_from_text text) model

  unfoldable pub new_model_from_file : ℕ → Assoc Text → Text → Bool → Option (Load × Bool)
  unfolding load_model
  new_model_from_file n disk path locked = load_model n disk path locked new_model

  unfoldable pub new_model_from_string : ℕ → Text → Load
  unfolding load_model_from_text
  new_model_from_string n text = load_model_from_text n text new_model
