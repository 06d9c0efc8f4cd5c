-- ===== src/Hardware.antt =====
-- What the machine can do, and the settings of the face engine that follow
-- (app/services/hardware.py). Sizes of memory are in hundredths of a GB.
pub mod Providers
mod Tests
use frass_f.Base.{
  ℕ, ◌-◌, ◌/◌, ◌*◌, max, Bool, true, false, not, ◌&&◌, ◌||◌, List, [], ◌∷◌, leb, ltb, if◌then◌else◌,
  any,
}

pub data GpuType : Type 0 where
  no_gpu nvidia_cuda apple_metal intel_igpu amd_rocm : GpuType

pub data Provider : Type 0 where
  cuda core_ml open_vino rocm cpu : Provider

-- A provider as onnxruntime takes it, with the options that depend on the machine; the memory limit
-- of CUDA, a float, is left out.
pub data Chosen : Type 0 where
  plain : Provider → Chosen
  fp16 : Bool → Chosen
  threads : ℕ → ℕ → Chosen

pub record HardwareProfile : Type 0 where
  pub cpu_cores : ℕ
  pub ram_gb : ℕ
  pub gpu_type : GpuType
  pub gpu_vram_gb : ℕ

-- What the machine shows: the processor, whether the platform is darwin on arm64 or linux, the
-- providers of onnxruntime, the memory that nvidia-smi tells, and whether /opt/rocm exists.
pub record Machine : Type 0 where
  pub cpu_cores : ℕ
  pub ram_gb : ℕ
  pub is_apple_arm : Bool
  pub is_linux : Bool
  pub has_onnxruntime : Bool
  pub available : List Provider
  pub nvidia_vram_gb : ℕ
  pub has_opt_rocm : Bool

abbrev pub same_provider : Provider → Provider → Bool
same_provider cuda cuda = true
same_provider core_ml core_ml = true
same_provider open_vino open_vino = true
same_provider rocm rocm = true
same_provider cpu cpu = true
same_provider _ _ = false

-- `p in available`
abbrev pub has : Provider → List Provider → Bool
has p = any (same_provider p)

abbrev profile : Machine → GpuType → ℕ → HardwareProfile
profile m g vram = record {
  cpu_cores = m.cpu_cores;
  ram_gb = m.ram_gb;
  gpu_type = g;
  gpu_vram_gb = vram;
}

-- `_detect_gpu`
unfoldable pub detect_gpu : Machine → HardwareProfile
unfolding profile
detect_gpu m =
    if not m.has_onnxruntime
    then profile m no_gpu 0
    else if has cuda m.available
    then profile m nvidia_cuda m.nvidia_vram_gb
    else if m.is_apple_arm && has core_ml m.available
    then profile m apple_metal (m.ram_gb / 2)
    else if has open_vino m.available
    then profile m intel_igpu 150
    else if m.is_linux && m.has_opt_rocm
    then profile m amd_rocm 400
    else profile m no_gpu 0

pub data Tier : Type 0 where
  high_gpu mid_gpu igpu high_cpu mid_cpu low : Tier

abbrev pub is_gpu : GpuType → Bool
is_gpu nvidia_cuda = true
is_gpu apple_metal = true
is_gpu amd_rocm = true
is_gpu _ = false

abbrev pub is_intel : GpuType → Bool
is_intel intel_igpu = true
is_intel _ = false

-- `tier`
unfoldable pub tier : HardwareProfile → Tier
tier h =
    if is_gpu h.gpu_type && leb 600 h.gpu_vram_gb
    then high_gpu
    else if is_gpu h.gpu_type && leb 200 h.gpu_vram_gb
    then mid_gpu
    else if is_intel h.gpu_type
    then igpu
    else if leb 8 h.cpu_cores && leb 800 h.ram_gb
    then high_cpu
    else if leb 4 h.cpu_cores && leb 400 h.ram_gb
    then mid_cpu
    else low

-- `_cpu_providers`
unfoldable pub cpu_providers : HardwareProfile → List Chosen
cpu_providers h = let n = max 1 (h.cpu_cores - 1) in threads n (max 1 (n / 2)) ∷ []

abbrev pub gpu_providers_of : GpuType → List Chosen → List Chosen
gpu_providers_of nvidia_cuda rest = plain cuda ∷ plain cpu ∷ []
gpu_providers_of apple_metal rest = plain core_ml ∷ plain cpu ∷ []
gpu_providers_of amd_rocm rest = plain rocm ∷ plain cpu ∷ []
gpu_providers_of _ rest = rest

-- `_gpu_providers`
unfoldable pub gpu_providers : HardwareProfile → List Chosen
unfolding cpu_providers
gpu_providers h = gpu_providers_of h.gpu_type (cpu_providers h)

-- `_igpu_providers`
unfoldable pub igpu_providers : HardwareProfile → List Chosen
igpu_providers h = fp16 (ltb 100 h.gpu_vram_gb) ∷ plain cpu ∷ []

pub record EngineConfig : Type 0 where
  pub providers : List Chosen
  pub face_det_size : ℕ
  pub batch_size : ℕ
  pub parallel_workers : ℕ
  pub recognition_threads : ℕ
  pub frame_skip : ℕ
  pub jpeg_quality : ℕ

abbrev settings : List Chosen → ℕ → ℕ → ℕ → ℕ → ℕ → ℕ → EngineConfig
settings ps size batch workers recognition skip quality = record {
  providers = ps;
  face_det_size = size;
  batch_size = batch;
  parallel_workers = workers;
  recognition_threads = recognition;
  frame_skip = skip;
  jpeg_quality = quality;
}

abbrev pub config_of : Tier → HardwareProfile → EngineConfig
unfolding gpu_providers igpu_providers cpu_providers settings
config_of high_gpu h = settings (gpu_providers h) 640 16 4 2 1 90
config_of mid_gpu h = settings (gpu_providers h) 480 4 2 1 1 85
config_of igpu h = settings (igpu_providers h) 480 2 2 1 2 80
config_of high_cpu h =
    settings (cpu_providers h) 480 4 (max 2 (h.cpu_cores / 2)) (max 1 (h.cpu_cores / 2)) 2 80
config_of mid_cpu h = settings (cpu_providers h) 320 2 2 1 3 75
config_of low h = settings (cpu_providers h) 320 1 1 1 4 70

-- `optimal_config`
unfoldable pub optimal_config : HardwareProfile → EngineConfig
unfolding tier config_of
optimal_config h = config_of (tier h) h
