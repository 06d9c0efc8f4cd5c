-- ===== src/Hardware/Providers.antt =====
-- The providers and numbers that a machine gets (app/services/hardware.py).
use frass_f.Base.{◌≤◌, ◌≡◌, refl, ◌⊎◌, Bool, true, false, not, ◌||◌, List, [], ◌∷◌, all, arith}
use frass_f.Hardware.{
  GpuType, no_gpu, nvidia_cuda, apple_metal, intel_igpu, amd_rocm, Provider, cuda, core_ml,
  open_vino, rocm, cpu, Chosen, plain, fp16, threads, HardwareProfile, Machine, has, detect_gpu,
  Tier, high_gpu, mid_gpu, igpu, high_cpu, mid_cpu, low, tier, cpu_providers, gpu_providers,
  igpu_providers, config_of, optimal_config,
}

abbrev pub provider_of : Chosen → Provider
provider_of (plain p) = p
provider_of (fp16 b) = open_vino
provider_of (threads n k) = cpu

abbrev pub is_amd : GpuType → Bool
is_amd amd_rocm = true
is_amd _ = false

-- The engine asks only for providers that are available.
abbrev pub all_available : Machine → Bool
all_available m =
    all (λ c. has (provider_of c) m.available) (optimal_config (detect_gpu m)).providers

-- The provider of a kind of GPU is available.
abbrev pub supported : GpuType → List Provider → Bool
supported no_gpu ps = true
supported nvidia_cuda ps = has cuda ps
supported apple_metal ps = has core_ml ps
supported intel_igpu ps = has open_vino ps
supported amd_rocm ps = has rocm ps

supported_lem :
    (m : Machine)
    → supported (detect_gpu m).gpu_type m.available
      ≡ (not (is_amd (detect_gpu m).gpu_type) || has rocm m.available)
unfolding detect_gpu
supported_lem m = ground arith

config_available :
    (ps : List Provider) (h : HardwareProfile) (t : Tier)
    → tier h ≡ t
    → has cpu ps ≡ true
    → supported h.gpu_type ps ≡ true
    → all (λ c. has (provider_of c) ps) (config_of t h).providers ≡ true
unfolding tier config_of gpu_providers igpu_providers cpu_providers
config_available ps h high_gpu e c s = ground arith
config_available ps h mid_gpu e c s = ground arith
config_available ps h igpu e c s = ground arith
config_available ps h high_cpu e c s = ground arith
config_available ps h mid_cpu e c s = ground arith
config_available ps h low e c s = ground arith

-- On a machine whose onnxruntime has the CPU provider, the engine asks only for providers that are
-- available, unless the GPU counts as AMD's and there is no ROCm provider.
pub optimal_config_available :
    (m : Machine)
    → has cpu m.available ≡ true
    → (is_amd (detect_gpu m).gpu_type ≡ false) ⊎ (has rocm m.available ≡ true)
    → all_available m ≡ true
unfolding optimal_config
optimal_config_available m c h =
    config_available m.available (detect_gpu m) (tier (detect_gpu m)) refl c
      (let lem = supported_lem m in ground arith)

rocm_asked :
    (m : Machine)
    → (detect_gpu m).gpu_type ≡ amd_rocm
    → (optimal_config (detect_gpu m)).providers ≡ plain rocm ∷ plain cpu ∷ []
unfolding optimal_config detect_gpu tier config_of gpu_providers
rocm_asked m e = ground arith

-- Where an AMD GPU is found, by the directory /opt/rocm alone, and onnxruntime has no ROCm provider,
-- the engine asks for a provider that is not available.
pub optimal_config_rocm :
    (m : Machine)
    → (detect_gpu m).gpu_type ≡ amd_rocm
    → has rocm m.available ≡ false
    → all_available m ≡ false
optimal_config_rocm m e h = rw (rocm_asked m e, h)

-- Every count of the settings is positive, the frames' quality at most 100, and no more than 16 faces
-- are taken at once, whatever the machine.
pub optimal_config_bounds :
    (h : HardwareProfile)
    → (1 ≤ (optimal_config h).batch_size)
      × ((optimal_config h).batch_size ≤ 16)
      × (1 ≤ (optimal_config h).parallel_workers)
      × (1 ≤ (optimal_config h).recognition_threads)
      × (1 ≤ (optimal_config h).frame_skip)
      × ((optimal_config h).jpeg_quality ≤ 100)
unfolding optimal_config config_of
optimal_config_bounds h = counts (tier h)
  where
    counts :
        (t : Tier)
        → (1 ≤ (config_of t h).batch_size)
          × ((config_of t h).batch_size ≤ 16)
          × (1 ≤ (config_of t h).parallel_workers)
          × (1 ≤ (config_of t h).recognition_threads)
          × (1 ≤ (config_of t h).frame_skip)
          × ((config_of t h).jpeg_quality ≤ 100)
    counts high_gpu = ground arith
    counts mid_gpu = ground arith
    counts igpu = ground arith
    counts high_cpu = ground arith
    counts mid_cpu = ground arith
    counts low = ground arith
