-- ===== src/Contracts/Pool.antt =====
-- contracts.py: the pool specifications.
use mta_runtime_intramind.Base.{ℕ, List, Option, Bool, true, false, ◌&&◌, leb, ℕ_discrete}

-- The resource class of a pool, `kind`, with what each class adds to _PoolSpec.
pub data Resource : Type 0 where
  -- context_limit
  llm : ℕ → Resource
  -- character_limit
  speech : ℕ → Resource
  -- character_limit, max_batch_size
  embedding rerank : ℕ → ℕ → Resource

pub record PoolSpec : Type 0 where
  pub pool_id : ℕ
  pub group_id : ℕ
  pub engine_epoch : ℕ
  pub profile_id : ℕ
  pub model_profile : ℕ
  pub model_revision : ℕ
  pub hard_ceiling : ℕ
  pub target : ℕ
  pub transport_limit : ℕ
  pub background_transport_limit : ℕ
  pub valid_until : Option ℕ
  pub capabilities : List ℕ
  pub resource : Resource

pub data Kind : Type 0 where
  llm speech embedding rerank : Kind

abbrev pub kind_of : Resource → Kind
kind_of (Resource.llm c) = Kind.llm
kind_of (Resource.speech c) = Kind.speech
kind_of (Resource.embedding c b) = Kind.embedding
kind_of (Resource.rerank c b) = Kind.rerank

abbrev pub same_kind : Kind → Kind → Bool
same_kind Kind.llm Kind.llm = true
same_kind Kind.speech Kind.speech = true
same_kind Kind.embedding Kind.embedding = true
same_kind Kind.rerank Kind.rerank = true
same_kind _ _ = false

abbrev pub is_llm : Resource → Bool
is_llm (Resource.llm c) = true
is_llm _ = false

abbrev pub request_limit : Resource → ℕ
request_limit (Resource.llm c) = c
request_limit (Resource.speech c) = c
request_limit (Resource.embedding c b) = c
request_limit (Resource.rerank c b) = c

-- `getattr(profile, "max_batch_size", default)`
abbrev pub max_batch_size : ℕ → Resource → ℕ
max_batch_size default (Resource.llm c) = default
max_batch_size default (Resource.speech c) = default
max_batch_size default (Resource.embedding c b) = b
max_batch_size default (Resource.rerank c b) = b

-- `_PoolSpec.check`; instants carry a timezone by their type
unfoldable pub check : PoolSpec → Bool
check spec =
    leb spec.target spec.hard_ceiling && leb spec.background_transport_limit spec.transport_limit

pub PoolSpec-discrete : Discrete PoolSpec
PoolSpec-discrete = hlevel ℕ_discrete

pub Kind-discrete : Discrete Kind
Kind-discrete = hlevel
