-- ===== src/Metrics.antt =====
-- The descriptor of a frame in pjsr/lib/WBPPShim.js: buildDescriptor and the metrics that it checks.
use distributed_wbpp.Prelude.{ℕ, Bool, true, false, not, ◌&&◌, Option, none, some, Text}
use distributed_wbpp.Split.{Number}

-- An element of a row as `isFinite` and `>` see it: `other` is a value that is not a number, by the number
-- that JavaScript makes of it.
pub data Cell (N : Type 0) : Type 0 where
  undefined : Cell N
  null : Cell N
  number : N → Cell N
  other : N → Cell N

pub record Descriptor (N : Type 0) : Type 0 where
  pub file_path : Text
  pub fwhm : Cell N
  pub eccentricity : Cell N
  pub psf_signal_weight : Cell N
  pub snr : Cell N
  pub median : Cell N
  pub mad : Cell N
  pub noise : Cell N
  pub number_of_stars : Cell N
  pub m_star : Cell N
  pub psf_snr : Cell N
  pub failed : Bool

-- `nCached`, `nMeasured` and `nFailed`
module _ (J : Number) (is_finite : J.N → Bool) where
  -- `isFinite( cell )`: undefined becomes NaN, and null becomes 0.
  unfoldable pub is_finite_cell : Cell J.N → Bool
  is_finite_cell undefined = false
  is_finite_cell null = true
  is_finite_cell (number n) = is_finite n
  is_finite_cell (other n) = is_finite n

  -- `cell > 0`
  unfoldable pub is_positive : Cell J.N → Bool
  is_positive undefined = false
  is_positive null = false
  is_positive (number n) = J.gt n (J.of_nat 0)
  is_positive (other n) = J.gt n (J.of_nat 0)

  abbrev pub no_metrics : Text → Descriptor J.N
  no_metrics path = record {
    file_path = path;
    fwhm = undefined;
    eccentricity = undefined;
    psf_signal_weight = undefined;
    snr = undefined;
    median = undefined;
    mad = undefined;
    noise = undefined;
    number_of_stars = undefined;
    m_star = undefined;
    psf_snr = undefined;
    failed = true;
  }

  -- The columns of `SSM`.
  abbrev pub metrics_of : (ℕ → Cell J.N) → Text → Descriptor J.N
  metrics_of row path = record {
    file_path = path;
    fwhm = row 5;
    eccentricity = row 6;
    psf_signal_weight = row 7;
    snr = row 9;
    median = row 10;
    mad = row 11;
    noise = row 12;
    number_of_stars = row 14;
    m_star = row 26;
    psf_snr = row 28;
    failed = true;
  }

  unfoldable pub is_valid : Descriptor J.N → Bool
  unfolding is_finite_cell is_positive
  is_valid d =
      is_finite_cell d.fwhm
      && (is_finite_cell d.eccentricity
          && (is_finite_cell d.number_of_stars
              && (is_finite_cell d.psf_signal_weight
                  && (is_finite_cell d.psf_snr
                      && (is_finite_cell d.snr
                          && (is_finite_cell d.median
                              && (is_finite_cell d.mad
                                  && (is_finite_cell d.m_star
                                      && is_positive d.number_of_stars))))))))

  -- buildDescriptor; a row that is not there, or null, is none.
  unfoldable pub build_descriptor : Option (ℕ → Cell J.N) → Text → Descriptor J.N
  unfolding is_valid
  build_descriptor none path = no_metrics path
  build_descriptor (some row) path = record (metrics_of row path) {
    failed = not (is_valid (metrics_of row path));
  }
