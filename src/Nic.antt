-- ===== src/Nic.antt =====
-- network/nic.c: a PCIe network card with NAPI receive and a ring of buffers to transmit.
use char_driver_scull.Base.{
  ℕ, ℤ, zero, suc, ◌+◌, ◌/◌, ◌%◌, ◌^◌, Bool, true, false, List, [], ◌∷◌, pos, ◌==◌, ltb,
  if◌then◌else◌, nonzero, get_or, replicate, set,
}
use char_driver_scull.Kernel.{Kernel, M, pure, ◌>>=◌, ◌>>◌, get, modify, void, status, number}
use char_driver_scull.Kernel.Driver.{PciDriver}
use char_driver_scull.Kernel.NetDevice.{NetDeviceOps}
use char_driver_scull.Kernel.Interface.{Call, enomem}
use char_driver_scull.Kernel.Pci.{PciDev}
mod State
pub use State.*
pub mod Resources
pub mod Life
pub mod Order
pub mod Switch
pub mod Session
pub mod Quiet
pub mod Fifo
pub mod Drain
pub mod Whole
pub mod Tests
pub mod Ring
pub mod Interrupt
pub mod Poll
pub mod Smp

-- The two assignments to the transmit ring.
pub push : (skb : ℕ) → Priv → Priv
push skb p = record p {
  tx_skbuff = set p.tx_skbuff p.tx_head skb;
  tx_head = (p.tx_head + 1) % ring_size;
}

-- The private data that `alloc_etherdev` gives is zero.
abbrev pub cleared : Priv → Priv
cleared p = record p { tx_skbuff = replicate ring_size 0; tx_head = 0; tx_tail = 0 }

module _ (k : Kernel) where
  module _ (pdev : PciDev) where
    err_disable_pci : ℤ → M Priv ℤ
    err_disable_pci err = do void Call.pci_disable_device; pure err

    err_release_region : ℤ → M Priv ℤ
    unfolding err_disable_pci
    err_release_region err = do void (Call.pci_release_region 0); err_disable_pci err

    err_iounmap : (mmio : ℕ) → ℤ → M Priv ℤ
    unfolding err_release_region
    err_iounmap mmio err = do void (Call.pci_iounmap mmio); err_release_region err

    err_free_netdev : (mmio netdev : ℕ) → ℤ → M Priv ℤ
    unfolding err_iounmap
    err_free_netdev mmio netdev err = do void (Call.free_netdev netdev); err_iounmap mmio err

    err_unregister_netdev : (mmio netdev : ℕ) → ℤ → M Priv ℤ
    unfolding err_free_netdev
    err_unregister_netdev mmio netdev err = do
      void (Call.unregister_netdev netdev)
      err_free_netdev mmio netdev err

    -- From the set-up of the private data to the end.
    set_up : (mmio netdev : ℕ) → M Priv ℤ
    unfolding err_unregister_netdev err_free_netdev
    set_up mmio netdev = do
      modify (λ p. record p { mmio = mmio; netdev = netdev })
      void (Call.pci_set_drvdata netdev)
      err ← status k (Call.register_netdev netdev)
      if nonzero err then err_free_netdev mmio netdev err else do
        err ← status k (Call.request_irq pdev.irq netdev)
        if nonzero err
            then err_unregister_netdev mmio netdev err
            else do void (Call.netif_napi_add netdev); pure (pos 0)

    map_region : M Priv ℤ
    unfolding err_release_region err_iounmap set_up
    map_region = do
      mmio ← number k (Call.pci_iomap 0)
      if mmio == 0 then err_release_region enomem else do
        netdev ← number k Call.alloc_netdev
        if netdev == 0 then err_iounmap mmio enomem else do modify cleared; set_up mmio netdev

    pub mynic_probe : M Priv ℤ
    unfolding map_region err_disable_pci
    mynic_probe = do
      err ← status k Call.pci_enable_device
      if nonzero err then pure err else do
        err ← status k (Call.pci_request_region 0)
        if nonzero err then err_disable_pci err else map_region

    -- `netdev` is what `pci_get_drvdata` returns.
    pub mynic_remove : M Priv (Unit {0})
    mynic_remove = do
      priv ← get
      void (Call.free_irq pdev.irq priv.netdev)
      void (Call.unregister_netdev priv.netdev)
      void (Call.netif_napi_del priv.netdev)
      void (Call.pci_iounmap priv.mmio)
      void (Call.free_netdev priv.netdev)
      void (Call.pci_release_region 0)
      void Call.pci_disable_device

  module _ (hw : Hardware) where
    pub mynic_open : M Priv ℤ
    mynic_open = do
      priv ← get
      void (Call.napi_enable priv.netdev)
      void (Call.netif_start_queue priv.netdev)
      void (Call.iowrite hw.enable_irq_rx (priv.mmio + hw.control_reg))
      pure (pos 0)

    pub mynic_stop : M Priv ℤ
    mynic_stop = do
      priv ← get
      void (Call.iowrite 0 (priv.mmio + hw.control_reg))
      void (Call.netif_stop_queue priv.netdev)
      void (Call.napi_disable priv.netdev)
      pure (pos 0)

    -- `len` is `skb_headlen(skb)`; the descriptor is hardware-specific and not written.
    pub mynic_start_xmit : (skb len : ℕ) → M Priv NetdevTx
    unfolding push
    mynic_start_xmit skb len = do
      _ ← number k (Call.dma_map_single skb len)
      void Call.spin_lock
      modify (push skb)
      priv ← get
      void (Call.iowrite hw.kick_tx (priv.mmio + hw.tx_reg))
      void Call.spin_unlock
      pure NetdevTx.netdev_tx_ok

    -- One round of the loop that completes transmissions; `handle` is the DMA address.
    pub complete : (handle : ℕ) → M Priv (Unit {0})
    complete handle = do
      priv ← get
      let idx = priv.tx_tail
      let skb = get_or priv.tx_skbuff idx 0
      if skb == 0 then pure tt else do
        len ← number k (Call.skb_len skb)
        void (Call.dma_unmap_single handle len)
        void (Call.dev_kfree_skb skb)
        modify (λ p. record p { tx_skbuff = set p.tx_skbuff idx 0 })
      modify (λ p. record p { tx_tail = (p.tx_tail + 1) % ring_size })

    -- The loop runs while the hardware reports packets sent: `handles` are their DMA addresses.
    pub complete_all : (handles : List ℕ) → M Priv (Unit {0})
    complete_all [] = pure tt
    complete_all (h ∷ hs) = complete h >> complete_all hs

    -- The branch for TX_INTR.
    pub complete_tx : (netdev : ℕ) (handles : List ℕ) → M Priv (Unit {0})
    complete_tx netdev handles = do
      void Call.spin_lock
      complete_all handles
      void Call.spin_unlock
      void (Call.netif_wake_queue netdev)

    pub mynic_interrupt : (handles : List ℕ) → M Priv IrqReturn
    mynic_interrupt handles = do
      priv ← get
      status ← number k (Call.ioread (priv.mmio + hw.intr_status_reg))
      void (Call.iowrite status (priv.mmio + hw.intr_status_reg))
      if has_bit status hw.rx_intr then void (Call.napi_schedule priv.netdev) else pure tt
      if has_bit status hw.tx_intr then complete_tx priv.netdev handles else pure tt
      pure IrqReturn.irq_handled

    -- The receive loop: `lens` are the lengths of the packets that the hardware has available.
    pub receive : (budget rx_done : ℕ) (lens : List ℕ) → M Priv ℕ
    receive budget rx_done [] = pure rx_done
    receive budget rx_done (pkt_len ∷ lens) =
        let rest = receive budget (rx_done + 1) lens in
        if ltb rx_done budget
        then (do
          priv ← get
          skb ← number k (Call.netdev_alloc_skb priv.netdev pkt_len)
          if skb == 0
              then pure rx_done
              else do void (Call.eth_type_trans skb); void (Call.netif_receive_skb skb); rest)
        else pure rx_done

    pub mynic_poll : (budget : ℕ) (lens : List ℕ) → M Priv ℕ
    mynic_poll budget lens = do
      priv ← get
      rx_done ← receive budget 0 lens
      if ltb rx_done budget
          then (do
            void (Call.napi_complete_done priv.netdev rx_done)
            void (Call.iowrite hw.enable_rx_irq (priv.mmio + hw.control_reg)))
          else pure tt
      pure rx_done

unfoldable pub mynic_init : Kernel → M Priv ℤ
mynic_init k = status k Call.pci_register_driver

unfoldable pub mynic_exit : M Priv (Unit {0})
mynic_exit = void Call.pci_unregister_driver

abbrev pub mynic_pci_tbl : List (ℕ × ℕ)
mynic_pci_tbl = (0x1234, 0x5678) ∷ []

abbrev pub mynic_driver : Kernel → PciDev → PciDriver Priv
mynic_driver k pdev = record {
  id_table = mynic_pci_tbl;
  probe = mynic_probe k pdev;
  remove = mynic_remove k pdev;
}

abbrev pub mynic_netdev_ops : Kernel → Hardware → NetDeviceOps Priv NetdevTx
mynic_netdev_ops k hw = record {
  ndo_open = mynic_open k hw;
  ndo_stop = mynic_stop k hw;
  ndo_start_xmit = mynic_start_xmit k hw;
}
